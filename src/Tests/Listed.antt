-- ===== src/Tests/Listed.antt =====
-- The removal of a file that the small directory lists.
use tyrant_fs.Base.{ℕ, zero, suc, ◌+◌, ◌≤◌, ◌<◌, ◌≡◌, ◌≢◌, inl, inr, refl, [], ◌∷◌, arith, ◌∙◌}
use tyrant_fs.Base.Bytes.{store, le_bytes, overlay, le_value, bytes_at}
use tyrant_fs.Base.Int.{pos}
use tyrant_fs.Device.Command.{Returns, ret}
use tyrant_fs.Inode.{
  encode, fetch_new, stale_node, fetch_inode, decode, pack, unpack, head_values, tail_values,
}
use tyrant_fs.Inode.Io.{inode_at, inode_at-store_self, inode_at-store-Apart}
use tyrant_fs.FreeList.Chain.{IsBlock, count, members}
use tyrant_fs.BlockMap.Address.{block_at, tables}
use tyrant_fs.Files.Placed.{IsPlaced, Off}
use tyrant_fs.Tests.{small_bytes, small_node}
use tyrant_fs.Tests.Files.{file-IsFormatted}
use tyrant_fs.Base.Store.{store_off}
use tyrant_fs.FreeList.Frame.{KeepsFree, members-KeepsFree, IsFreeList-KeepsFree}
use tyrant_fs.FreeList.Refine.{IsFormatted}
use tyrant_fs.Files.Small.{IsSmall}
use tyrant_fs.Files.Isolation.{AreApart}
use tyrant_fs.Unlink.{
  unlink_from, sub_unlink, find_parent, tfs_unlink, tfs_rmdir, split_path, scan_back,
}
use tyrant_fs.Unlink.Dropped.{Dropped}
use tyrant_fs.Unlink.Listed.{unlinked_entry}
use tyrant_fs.Tests.FreeList.{small_members}
use tyrant_fs.Tests.Removal.{
  dir_node, dir_node-IsNode, child_node, child_node-IsNode, entries_bytes, listed, dir_bytes,
  dir_fs, dir_inode, dir_block, dir-IsPlaced, second-IsFirst, dir-IsDirectory,
}
use tyrant_fs.FilePath.{
  find_path_node, walk, tokens, tokens_from, search_node, search_direct, search_tables,
}
use tyrant_fs.Directory.{
  stale_bytes, load_block, stale_byte, check_block, check_entries, c_string, same_string,
}
use tyrant_fs.Device.{lseek_set, read, Fs}
use tyrant_fs.Unlink.ByPath.{tfs_unlink_lem}
use tyrant_fs.Removal.Shrink.{IsDirectory}

child_inode : inode_at dir_bytes 16640 ≡ child_node
child_inode =
    inode_at-store-Apart listed 16384 dir_node dir_node-IsNode 16640 (inl (omega arith))
    ∙ inode_at-store_self entries_bytes 16640 child_node child_node-IsNode

child_block : (P : ℕ → Type 0) → P 24576 → (i : ℕ) → i < 1 → P (block_at dir_bytes child_node i)
unfolding block_at
child_block P p zero h = p
child_block P p (suc i) h = absurd (omega arith)

child_tables : (i : ℕ) → i < 1 → tables dir_bytes child_node i ≡ []
unfolding tables
child_tables zero h = refl
child_tables (suc i) h = absurd (omega arith)

child-IsPlaced : IsPlaced dir_bytes 28672 child_node 16640
child-IsPlaced = record {
  mapped = record {
    small = omega arith;
    reach = omega arith;
    tables_ok = λ i h. rw (child_tables i h) tt;
    blocks_ok =
        child_block (IsBlock 28672)
          (record { aligned = omega arith; behind = omega arith; inside = omega arith });
    distinct = λ i j h l e. omega arith;
    no_table = λ i j h l. rw (child_tables j l) tt;
  };
  node = child_node-IsNode;
  behind = omega arith;
  inside = omega arith;
  off = child_block (Off 16640) (inl (omega arith));
  tables_off = λ i h. rw (child_tables i h) tt;
}

used_low : (b x : ℕ) → 0 < count b (4096 ∷ 8192 ∷ 12288 ∷ []) → x < b + 4096 → x < 16384
unfolding count
used_low b x p h = ground arith

dir_keeps : KeepsFree small_bytes dir_bytes (4096 ∷ [])
dir_keeps = record {
  first = λ x h.
      store_off listed 16384 (encode dir_node) x (inl (omega arith))
      ∙ store_off entries_bytes 16640 (encode child_node) x (inl (omega arith))
      ∙ below x (omega arith);
  blocks = λ b x free l m.
      let q : 0 < count b (4096 ∷ 8192 ∷ 12288 ∷ []) = (rw small_members at free) in
      let low : x < 16384 = used_low b x q m in
      store_off listed 16384 (encode dir_node) x (inl low)
      ∙ store_off entries_bytes 16640 (encode child_node) x (inl (omega arith))
      ∙ below x low;
}
  where
    below : (x : ℕ) → x < 16384 → entries_bytes x ≡ small_bytes x
    below x h =
        store_off
          (store
            (store (store small_bytes (20480 + 248) (le_bytes 8 16384)) (20480 + 504)
              (le_bytes 8 16640))
            (20480 + 760) (le_bytes 8 16896))
          (20480 + 256) (b'a' ∷ []) x (inl (omega arith))
        ∙ store_off
            (store (store small_bytes (20480 + 248) (le_bytes 8 16384)) (20480 + 504)
              (le_bytes 8 16640))
            (20480 + 760) (le_bytes 8 16896) x (inl (omega arith))
        ∙ store_off (store small_bytes (20480 + 248) (le_bytes 8 16384)) (20480 + 504)
            (le_bytes 8 16640) x (inl (omega arith))
        ∙ store_off small_bytes (20480 + 248) (le_bytes 8 16384) x (inl (omega arith))

dir_members : members dir_bytes (4096 ∷ []) ≡ 4096 ∷ 8192 ∷ 12288 ∷ []
dir_members = members-KeepsFree file-IsFormatted.list dir_keeps ∙ small_members

dir-IsFormatted : IsFormatted dir_fs (4096 ∷ [])
dir-IsFormatted = record {
  room = omega arith;
  list = IsFreeList-KeepsFree file-IsFormatted.list dir_keeps;
}

-- What is not free.
not_free : (b : ℕ) → 16384 ≤ b → count b (members dir_bytes (4096 ∷ [])) ≡ 0
unfolding count
not_free b h = rw dir_members (ground arith)

free_low : (cur b : ℕ) → 16384 ≤ cur → 0 < count b (members dir_bytes (4096 ∷ [])) → Off cur b
unfolding count
free_low cur b h p =
    let q : 0 < count b (4096 ∷ 8192 ∷ 12288 ∷ []) = (rw dir_members at p) in inr (ground arith)

child-IsSmall : IsSmall dir_fs (4096 ∷ []) child_node 16640
child-IsSmall = record {
  placed = child-IsPlaced;
  few = omega arith;
  formatted = dir-IsFormatted;
  spared = λ b p. free_low 16640 b (omega arith) p;
  used =
      child_block (λ b. count b (members dir_bytes (4096 ∷ [])) ≡ 0) (not_free 24576 (omega arith));
}

dir-IsSmall : IsSmall dir_fs (4096 ∷ []) dir_node 16384
dir-IsSmall = record {
  placed = dir-IsPlaced;
  few = omega arith;
  formatted = dir-IsFormatted;
  spared = λ b p. free_low 16384 b (omega arith) p;
  used =
      dir_block (λ b. count b (members dir_bytes (4096 ∷ [])) ≡ 0) (not_free 20480 (omega arith));
}

child-AreApart : AreApart dir_fs child_node 16640 dir_node 16384
child-AreApart = record {
  inodes = inr (omega arith);
  blocks = λ i j h l.
      child_block (λ b. b ≢ block_at dir_bytes dir_node j)
        (dir_block (λ b. 24576 ≢ b) (omega arith) j l) i h;
  off = dir_block (Off 16640) (inl (omega arith));
  off' = child_block (Off 16384) (inl (omega arith));
}

unlinked_entry_example :
    Returns
      (λ r t.
        (r ≡ pos 0)
        × Dropped dir_fs
            (4096 ∷ [])
            (inode_at dir_bytes 16640)
            16640
            (inode_at dir_bytes 16384)
            16384
            1
            2
            t)
      (unlink_from 0 16384 16640 small_node dir_fs)
    × Returns
        (λ r t.
          (r ≡ pos 0)
          × Dropped dir_fs
              (4096 ∷ [])
              (inode_at dir_bytes 16640)
              16640
              (inode_at dir_bytes 16384)
              16384
              1
              2
              t)
        (sub_unlink 1 16384 16640 dir_fs)
unlinked_entry_example =
    unlinked_entry dir_fs (4096 ∷ []) 16640 16384 1 2 0 small_node (rw child_inode child-IsSmall)
      (rw dir_inode dir-IsSmall) (rw (child_inode, dir_inode) child-AreApart) dir-IsDirectory
      (omega arith) (omega arith) (inr (omega arith)) (rw dir_inode second-IsFirst) refl
      (λ k. omega arith) (rw child_inode refl) (rw child_inode refl) refl

-- The path "/a" leads to the file.
child_found :
    find_path_node (b'/' ∷ b'a' ∷ []) dir_fs ≡ ret 16640 (record dir_fs { at = 16640 + 208 })
unfolding find_path_node walk tokens tokens_from stale_bytes search_node search_direct search_tables
    load_block stale_byte check_block check_entries c_string same_string overlay fetch_new
    stale_node fetch_inode lseek_set read le_value bytes_at store le_bytes encode decode pack unpack
    head_values tail_values
child_found = refl

root_parent :
    find_parent [] (record dir_fs { at = 16640 + 208 })
    ≡ ret 16384 (record dir_fs { at = 16640 + 208 })
unfolding find_parent
root_parent = refl

-- Behind the lookups.
abbrev found_fs : Fs
found_fs = record dir_fs { at = 16640 + 208 }

found-IsFormatted : IsFormatted found_fs (4096 ∷ [])
found-IsFormatted = record { room = dir-IsFormatted.room; list = dir-IsFormatted.list }

found_child-IsSmall : IsSmall found_fs (4096 ∷ []) child_node 16640
found_child-IsSmall =
    let v = child-IsSmall in
    record {
      placed = v.placed;
      few = v.few;
      formatted = found-IsFormatted;
      spared = v.spared;
      used = v.used;
    }

found_dir-IsSmall : IsSmall found_fs (4096 ∷ []) dir_node 16384
found_dir-IsSmall =
    let v = dir-IsSmall in
    record {
      placed = v.placed;
      few = v.few;
      formatted = found-IsFormatted;
      spared = v.spared;
      used = v.used;
    }

found-AreApart : AreApart found_fs child_node 16640 dir_node 16384
found-AreApart =
    let a = child-AreApart in
    record { inodes = a.inodes; blocks = a.blocks; off = a.off; off' = a.off' }

found-IsDirectory : IsDirectory found_fs (inode_at dir_bytes 16384) 16384 2
found-IsDirectory =
    let d = dir-IsDirectory in record { placed = d.placed; size = d.size; blocks = d.blocks }

tfs_unlink_lem_example :
    Returns
      (λ r t.
        (r ≡ pos 0)
        × Dropped found_fs
            (4096 ∷ [])
            (inode_at dir_bytes 16640)
            16640
            (inode_at dir_bytes 16384)
            16384
            1
            2
            t)
      (tfs_unlink 0 (b'/' ∷ b'a' ∷ []) dir_fs)
    × Returns
        (λ r t.
          (r ≡ pos 0)
          × Dropped found_fs
              (4096 ∷ [])
              (inode_at dir_bytes 16640)
              16640
              (inode_at dir_bytes 16384)
              16384
              1
              2
              t)
        (tfs_rmdir 0 (b'/' ∷ b'a' ∷ []) dir_fs)
unfolding same_string split_path scan_back
tfs_unlink_lem_example =
    tfs_unlink_lem dir_fs found_fs found_fs (4096 ∷ []) (b'/' ∷ b'a' ∷ []) [] (b'a' ∷ []) 16640
      16384 1 2 0 child_found (omega arith) (omega arith) refl refl root_parent
      (rw child_inode found_child-IsSmall) (rw dir_inode found_dir-IsSmall)
      (rw (child_inode, dir_inode) found-AreApart) found-IsDirectory (omega arith) (omega arith)
      (inr (omega arith)) (rw dir_inode second-IsFirst) refl (λ k. omega arith)
      (rw child_inode refl) (rw child_inode refl)
