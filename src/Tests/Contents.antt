-- ===== src/Tests/Contents.antt =====
-- Handlers on a file that the path of the root leads to.
use tyrant_fs.Base.{ℕ, ◌+◌, ◌*◌, ◌-◌, ◌≤◌, ◌<◌, ◌≡◌, inl, inr, refl, List, [], ◌∷◌, arith, min}
use tyrant_fs.Base.Bytes.{Memory, bytes_at, store}
use tyrant_fs.Base.Int.{pos, negsuc, to_int}
use tyrant_fs.Device.{Fs}
use tyrant_fs.Device.Command.{ret, Returns}
use tyrant_fs.Inode.{Node, encode, head_values, tail_values}
use tyrant_fs.Inode.Io.{inode_at, inode_at-store_self, fetch_new-ok}
use tyrant_fs.Directory.{stale_bytes}
use tyrant_fs.FilePath.{find_path_node, walk, tokens, tokens_from}
use tyrant_fs.Files.{tfs_read, tfs_write, write_node}
use tyrant_fs.Files.Contents.{contents}
use tyrant_fs.Files.Placed.{Off}
use tyrant_fs.Files.Small.{IsSmall}
use tyrant_fs.Files.Sparing.{committed-IsSmall}
use tyrant_fs.Files.Extend.{Saved}
use tyrant_fs.Files.ByPath.{tfs_read_lem, tfs_write_lem}
use tyrant_fs.Files.Isolation.{AreApart, LeavesOther, write_node-LeavesOther}
use tyrant_fs.Tests.{small_bytes, small_node}
use tyrant_fs.Tests.Inode.{small_node-IsNode}
use tyrant_fs.Tests.Files.{steady_fs, steady-IsSmall, small_blocks}
use tyrant_fs.Inode.Codec.{IsNode}
use tyrant_fs.FreeList.Chain.{count}
use tyrant_fs.Tests.FreeList.{small_members}

-- The inode of the file is on the device.
abbrev pub stored_bytes : Memory
stored_bytes = store small_bytes 16384 (encode small_node)

abbrev pub stored_fs : Fs
stored_fs = record steady_fs { byte = stored_bytes; at = 0 }

pub stored_inode : inode_at stored_bytes 16384 ≡ small_node
stored_inode = inode_at-store_self small_bytes 16384 small_node small_node-IsNode

pub stored-IsSmall : IsSmall stored_fs (4096 ∷ []) small_node 16384
stored-IsSmall =
    committed-IsSmall steady_fs (4096 ∷ []) small_node 16384 12 13 0 0 steady-IsSmall (omega arith)
      (omega arith)

abbrev pub looked_up : Fs
looked_up = record stored_fs { at = 16384 + 208 }

looked_up-IsSmall : IsSmall looked_up (4096 ∷ []) small_node 16384
looked_up-IsSmall =
    let v = stored-IsSmall in
    let f = v.formatted in
    record {
      placed = v.placed;
      few = v.few;
      formatted = record { room = f.room; list = f.list };
      spared = v.spared;
      used = v.used;
    }

stored_found : find_path_node (b'/' ∷ []) stored_fs ≡ ret 16384 looked_up
unfolding find_path_node walk tokens tokens_from stale_bytes
stored_found = rw (fetch_new-ok stored_fs 16384 (omega arith) (omega arith)) refl

tfs_write_lem_example :
    Returns
      (λ r t.
        (wrote : ℕ) × (node : Node) × (left : List ℕ) × (r ≡ pos wrote)
        × Saved looked_up
            (4096 ∷ [])
            (inode_at stored_bytes 16384)
            16384
            (7 ∷ 8 ∷ 9 ∷ [])
            3
            12287
            wrote
            node
            left
            t)
      (tfs_write (b'/' ∷ []) (7 ∷ 8 ∷ 9 ∷ []) 3 12287 stored_fs)
tfs_write_lem_example =
    tfs_write_lem stored_fs looked_up (b'/' ∷ []) 16384 stored_found (4096 ∷ []) (7 ∷ 8 ∷ 9 ∷ []) 3
      12287 (rw stored_inode looked_up-IsSmall) (omega arith) (omega arith) (omega arith)
      (rw stored_inode (omega arith)) (omega arith)

tfs_read_lem_example :
    ((inode_at stored_bytes 16384).size ≤ 4998
      → tfs_read (b'/' ∷ []) 10 4998 stored_fs
        ≡ ret (negsuc 0, []) (record looked_up { at = 16384 + 208 }))
    × (4998 < (inode_at stored_bytes 16384).size
        → Returns
            (λ r t.
              (r ≡ (
                to_int (min 10 ((inode_at stored_bytes 16384).size - 4998)),
                bytes_at
                    (contents stored_bytes (inode_at stored_bytes 16384))
                    4998
                    (min 10 ((inode_at stored_bytes 16384).size - 4998)),
              ))
              × (inode_at t.byte 16384
                  ≡ record (inode_at stored_bytes 16384) { access_time = 1000 })
              × ((x : ℕ)
                  → x < (inode_at stored_bytes 16384).blocks * 4096
                  → contents t.byte (inode_at stored_bytes 16384) x
                    ≡ contents stored_bytes (inode_at stored_bytes 16384) x))
            (tfs_read (b'/' ∷ []) 10 4998 stored_fs))
tfs_read_lem_example =
    tfs_read_lem stored_fs looked_up (b'/' ∷ []) 16384 stored_found 10 4998
      (rw stored_inode (stored-IsSmall.placed)) (omega arith) (rw stored_inode (omega arith))
      (omega arith)

-- A second file, without blocks, at 16640.
abbrev empty_node : Node
empty_node = record small_node { blocks = 0; size = 0 }

empty_node-IsNode : IsNode empty_node
unfolding head_values tail_values
empty_node-IsNode = record {
  head = omega arith;
  direct = small_node-IsNode.direct;
  last = omega arith;
}

empty-IsSmall : IsSmall steady_fs (4096 ∷ []) empty_node 16640
unfolding count
empty-IsSmall = record {
  placed = record {
    mapped = record {
      small = omega arith;
      reach = omega arith;
      tables_ok = λ i h. absurd (omega arith);
      blocks_ok = λ i h. absurd (omega arith);
      distinct = λ i j h. absurd (omega arith);
      no_table = λ i j h. absurd (omega arith);
    };
    node = empty_node-IsNode;
    behind = omega arith;
    inside = omega arith;
    off = λ i h. absurd (omega arith);
    tables_off = λ i h. absurd (omega arith);
  };
  few = omega arith;
  formatted = steady-IsSmall.formatted;
  spared = λ b p.
      let q : 0 < count b (4096 ∷ 8192 ∷ 12288 ∷ []) = (rw small_members at p) in
      inr (ground arith);
  used = λ i h. absurd (omega arith);
}

steady-AreApart : AreApart steady_fs small_node 16384 empty_node 16640
steady-AreApart = record {
  inodes = inl (omega arith);
  blocks = λ i j h l. absurd (omega arith);
  off = λ j h. absurd (omega arith);
  off' = small_blocks (Off 16640) (inl (omega arith)) (inl (omega arith));
}

write_node-LeavesOther_example :
    Returns
      (λ r t. LeavesOther steady_fs 16384 empty_node 16640 t)
      (write_node 16384 small_node (7 ∷ 8 ∷ 9 ∷ []) 3 12287 steady_fs)
write_node-LeavesOther_example =
    write_node-LeavesOther steady_fs (4096 ∷ []) small_node empty_node 16384 16640 (7 ∷ 8 ∷ 9 ∷ [])
      3 12287 steady-IsSmall empty-IsSmall steady-AreApart (omega arith) (omega arith) (omega arith)
      (omega arith) (omega arith)
