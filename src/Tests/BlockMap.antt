-- ===== src/Tests/BlockMap.antt =====
-- The block map: the theorems at a small inode.
use tyrant_fs.Base.{ℕ, ◌+◌, ◌*◌, ◌/◌, ◌≤◌, ◌<◌, ◌≡◌, ◌⊎◌, inl, inr, [], ◌∷◌, arith}
use tyrant_fs.Device.Command.{Returns}
use tyrant_fs.FreeList.Chain.{count, members}
use tyrant_fs.BlockMap.{
  add_block_to_node, indirect_end, dbl_end, indirect_offset, dbl_offset, dbl_indirect_offset,
  trpl_offset, trpl_dbl_offset, trpl_indirect_offset,
}
use tyrant_fs.BlockMap.Offsets.{IsSlot, trpl_end, offsets_lem}
use tyrant_fs.Device.{Fs}
use tyrant_fs.Inode.{Node, head_values, tail_values}
use tyrant_fs.Inode.Codec.{IsNode}
use tyrant_fs.FreeList.Refine.{IsFormatted}
use tyrant_fs.BlockMap.Indirect.{HasTable, add_block_to_node-indirect}
use tyrant_fs.BlockMap.Grow.{IsHome, Grown, add_block_to_node-direct}
use tyrant_fs.Tests.{small_fs, small_bytes, small_node}
use tyrant_fs.Tests.Inode.{small_node-IsNode}
use tyrant_fs.Tests.FreeList.{small_members, small_IsFormatted}

small-IsHome : IsHome small_fs (4096 ∷ []) 16384
unfolding count
small-IsHome = record {
  behind = omega arith;
  inside = omega arith;
  apart = λ b p.
      let q : 0 < count b (4096 ∷ 8192 ∷ 12288 ∷ []) = (rw small_members at p) in
      inr (ground arith);
}

add_block_to_node-direct_example :
    Returns
      (λ p t.
        ((p.0 ≡ 0) × (p.1 ≡ small_node) × ((b : ℕ) → count b (members small_bytes (4096 ∷ [])) ≡ 0))
        ⊎ Grown small_fs (4096 ∷ []) small_node 16384 p.0 p.1 t)
      (add_block_to_node small_node 16384 small_fs)
add_block_to_node-direct_example =
    add_block_to_node-direct small_fs (4096 ∷ []) small_node 16384 small_IsFormatted small-IsHome
      small_node-IsNode (omega arith)

offsets_lem_example :
    (12 ≤ 525
      → 525 < indirect_end
      → IsSlot (indirect_offset 525) × (12 + indirect_offset 525 / 8 ≡ 525))
    × (indirect_end ≤ 525
        → 525 < dbl_end
        → IsSlot (dbl_offset 525)
          × IsSlot (dbl_indirect_offset 525)
          × (indirect_end + dbl_offset 525 / 8 * 512 + dbl_indirect_offset 525 / 8 ≡ 525))
    × (dbl_end ≤ 525
        → 525 < trpl_end
        → IsSlot (trpl_offset 525)
          × IsSlot (trpl_dbl_offset 525)
          × IsSlot (trpl_indirect_offset 525)
          × (dbl_end
                + (trpl_offset 525 / 8 * 512 + trpl_dbl_offset 525 / 8) * 512
                + trpl_indirect_offset 525 / 8
              ≡ 525))
offsets_lem_example = offsets_lem 525

-- The small device with one block more, the indirect block of an inode of 12 blocks.
abbrev wide_fs : Fs
wide_fs = record small_fs { size = 24576 }

abbrev long_node : Node
long_node = record small_node { blocks = 12; indirect_blocks = 20480 }

wide-IsFormatted : IsFormatted wide_fs (4096 ∷ [])
unfolding count
wide-IsFormatted = record {
  room = omega arith;
  list = record {
    chain = (small_IsFormatted.list).chain;
    once = (small_IsFormatted.list).once;
    valid = λ a. rw small_members (λ p. ground arith);
    small = omega arith;
  };
}

wide-IsHome : IsHome wide_fs (4096 ∷ []) 16384
wide-IsHome = record { behind = omega arith; inside = omega arith; apart = small-IsHome.apart }

long_node-IsNode : IsNode long_node
unfolding head_values tail_values
long_node-IsNode = record {
  head = omega arith;
  direct = small_node-IsNode.direct;
  last = omega arith;
}

long_node-HasTable : HasTable wide_fs (4096 ∷ []) 16384 20480
unfolding count
long_node-HasTable = record {
  block = record { aligned = omega arith; behind = omega arith; inside = omega arith };
  used = rw small_members (ground arith);
  away = inl (omega arith);
}

add_block_to_node-indirect_example :
    Returns
      (λ p t.
        ((p.0 ≡ 0) × (p.1 ≡ long_node) × ((b : ℕ) → count b (members small_bytes (4096 ∷ [])) ≡ 0))
        ⊎ Grown wide_fs (4096 ∷ []) long_node 16384 p.0 p.1 t)
      (add_block_to_node long_node 16384 wide_fs)
add_block_to_node-indirect_example =
    add_block_to_node-indirect wide_fs (4096 ∷ []) long_node 16384 wide-IsFormatted wide-IsHome
      long_node-IsNode (omega arith) (omega arith) long_node-HasTable
