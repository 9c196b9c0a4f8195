-- ===== src/Tests/Removal.antt =====
-- A directory of three entries in one block.
use tyrant_fs.Base.{
  ℕ, zero, suc, ◌+◌, ◌*◌, ◌/◌, ◌%◌, ◌≤◌, ◌<◌, ◌≡◌, ◌≢◌, ◌⊎◌, inl, inr, refl, [], ◌∷◌, arith,
}
use tyrant_fs.Base.Bytes.{Memory, store, word, le_bytes, le_value, bytes_at}
use tyrant_fs.Base.Int.{negsuc}
use tyrant_fs.Device.{Fs}
use tyrant_fs.Device.Command.{Returns}
use tyrant_fs.Inode.{Node, encode, head_values, tail_values, pack}
use tyrant_fs.Inode.Codec.{IsNode}
use tyrant_fs.Inode.Io.{inode_at, inode_at-store_self}
use tyrant_fs.Inode.Search.{OnlyAt}
use tyrant_fs.FreeList.Chain.{IsBlock}
use tyrant_fs.BlockMap.Address.{block_at, tables}
use tyrant_fs.Files.Placed.{IsPlaced, Off}
use tyrant_fs.Removal.{remove_link_from_parent, rename_from_parent}
use tyrant_fs.Removal.Search.{IsFirst, entry_address}
use tyrant_fs.Removal.Shrink.{IsDirectory, Unlisted}
use tyrant_fs.Removal.Link.{remove_link_from_parent_lem}
use tyrant_fs.Removal.Rename.{Renamed, rename_from_parent_lem}
use tyrant_fs.Tests.{small_bytes, small_node}
use tyrant_fs.Tests.Inode.{small_node-IsNode}
use tyrant_fs.Tests.Files.{steady_fs}

abbrev pub dir_node : Node
dir_node = record small_node { mode = 0x41ed; size = 768; blocks = 1 }

pub dir_node-IsNode : IsNode dir_node
unfolding head_values tail_values
dir_node-IsNode = record {
  head = omega arith;
  direct = small_node-IsNode.direct;
  last = omega arith;
}

-- A file of one block, at 16640.
abbrev pub child_node : Node
child_node = record small_node {
  size = 100;
  blocks = 1;
  direct_blocks = 24576 ∷ 0 ∷ 0 ∷ 0 ∷ 0 ∷ 0 ∷ 0 ∷ 0 ∷ 0 ∷ 0 ∷ 0 ∷ 0 ∷ [];
}

pub child_node-IsNode : IsNode child_node
unfolding head_values tail_values
child_node-IsNode = record { head = omega arith; direct = omega arith; last = omega arith }

-- The addresses of the entries, and the name of the second; the inode is at 16384.
abbrev pub entries_bytes : Memory
entries_bytes =
    store
      (store
        (store (store small_bytes (20480 + 248) (le_bytes 8 16384)) (20480 + 504)
          (le_bytes 8 16640))
        (20480 + 760) (le_bytes 8 16896))
      (20480 + 256) (b'a' ∷ [])

abbrev pub listed : Memory
listed = store entries_bytes 16640 (encode child_node)

abbrev pub dir_bytes : Memory
dir_bytes = store listed 16384 (encode dir_node)

abbrev pub dir_fs : Fs
dir_fs = record steady_fs { byte = dir_bytes }

pub dir_inode : inode_at dir_bytes 16384 ≡ dir_node
dir_inode = inode_at-store_self listed 16384 dir_node dir_node-IsNode

pub dir_block : (P : ℕ → Type 0) → P 20480 → (i : ℕ) → i < 1 → P (block_at dir_bytes dir_node i)
unfolding block_at
dir_block P p zero h = p
dir_block P p (suc i) h = absurd (omega arith)

dir_tables : (i : ℕ) → i < 1 → tables dir_bytes dir_node i ≡ []
unfolding tables
dir_tables zero h = refl
dir_tables (suc i) h = absurd (omega arith)

pub dir-IsPlaced : IsPlaced dir_bytes 28672 dir_node 16384
dir-IsPlaced = record {
  mapped = record {
    small = omega arith;
    reach = omega arith;
    tables_ok = λ i h. rw (dir_tables i h) tt;
    blocks_ok =
        dir_block (IsBlock 28672)
          (record { aligned = omega arith; behind = omega arith; inside = omega arith });
    distinct = λ i j h l e. omega arith;
    no_table = λ i j h l. rw (dir_tables j l) tt;
  };
  node = dir_node-IsNode;
  behind = omega arith;
  inside = omega arith;
  off = dir_block (Off 16384) (inl (omega arith));
  tables_off = λ i h. rw (dir_tables i h) tt;
}

first_entry : entry_address dir_bytes dir_node 0 ≡ 16384
unfolding block_at word le_value bytes_at store le_bytes encode pack head_values tail_values
first_entry = refl

second_entry : entry_address dir_bytes dir_node 1 ≡ 16640
unfolding block_at word le_value bytes_at store le_bytes encode pack head_values tail_values
second_entry = refl

pub second-IsFirst : IsFirst dir_bytes dir_node 16640 1
second-IsFirst = record { here = second_entry; before = other }
  where
    other : (p : ℕ) → p < 1 → entry_address dir_bytes dir_node p ≢ 16640
    other zero h = rw first_entry (omega arith)
    other (suc p) h = absurd (omega arith)

pub dir-IsDirectory : IsDirectory dir_fs (inode_at dir_bytes 16384) 16384 2
dir-IsDirectory = record {
  placed = rw dir_inode dir-IsPlaced;
  size = rw dir_inode (omega arith);
  blocks = rw dir_inode (omega arith);
}

remove_link_from_parent_lem_example :
    ((q : ℕ)
      → q ≤ 2
      → IsFirst dir_bytes (inode_at dir_bytes 16384) 16640 q
      → (q ≡ 2) ⊎ (3 % 16 ≢ 0)
      → Returns
          (Unlisted dir_fs (inode_at dir_bytes 16384) 16384 q 2)
          (remove_link_from_parent 16384 16640 dir_fs))
    × (((q : ℕ) → q ≤ 2 → entry_address dir_bytes (inode_at dir_bytes 16384) q ≢ 16640)
        → Returns
            (λ r t. (r ≡ negsuc 0) × OnlyAt dir_fs t)
            (remove_link_from_parent 16384 16640 dir_fs))
remove_link_from_parent_lem_example =
    remove_link_from_parent_lem dir_fs 16384 16640 2 dir-IsDirectory (omega arith) (omega arith)
      (rw dir_inode (omega arith)) (omega arith)

-- The second entry goes.
removes_second :
    Returns
      (Unlisted dir_fs (inode_at dir_bytes 16384) 16384 1 2)
      (remove_link_from_parent 16384 16640 dir_fs)
removes_second =
    (remove_link_from_parent_lem dir_fs 16384 16640 2 dir-IsDirectory (omega arith) (omega arith)
        (rw dir_inode (omega arith)) (omega arith)).0
      1 (omega arith) (rw dir_inode second-IsFirst) (inr (omega arith))

rename_from_parent_lem_example :
    ((q : ℕ)
      → q * 256 < (inode_at dir_bytes 16384).size
      → q / 16 < (inode_at dir_bytes 16384).blocks
      → IsFirst dir_bytes (inode_at dir_bytes 16384) 16640 q
      → Returns
          (Renamed dir_fs (inode_at dir_bytes 16384) 16384 q (b'a' ∷ b'b' ∷ []))
          (rename_from_parent 16384 16640 (b'a' ∷ b'b' ∷ []) dir_fs))
    × (((q : ℕ)
          → q * 256 < (inode_at dir_bytes 16384).size
          → entry_address dir_bytes (inode_at dir_bytes 16384) q ≢ 16640)
        → Returns
            (λ r t. (r ≡ negsuc 0) × OnlyAt dir_fs t)
            (rename_from_parent 16384 16640 (b'a' ∷ b'b' ∷ []) dir_fs))
rename_from_parent_lem_example =
    rename_from_parent_lem dir_fs 16384 16640 (b'a' ∷ b'b' ∷ []) (rw dir_inode dir-IsPlaced)
      (omega arith) (omega arith) (omega arith) (rw dir_inode (omega arith)) (omega arith)
