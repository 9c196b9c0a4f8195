-- ===== src/BlockMap/Offsets.antt =====
-- The arithmetic of the block map: where the address of block `i` stands.
use tyrant_fs.Base.{ℕ, ◌+◌, ◌*◌, ◌/◌, ◌%◌, ◌≤◌, ◌<◌, ◌≡◌, arith}
use tyrant_fs.BlockMap.{
  indirect_end, dbl_end, indirect_offset, dbl_offset, dbl_indirect_offset, trpl_offset,
  trpl_dbl_offset, trpl_indirect_offset,
}

-- A slot of an index block.
abbrev pub IsSlot : ℕ → Type 0
IsSlot offset = (offset + 8 ≤ 4096) × (offset % 8 ≡ 0)

-- One past the last index that the triple indirect block reaches.
abbrev pub trpl_end : ℕ
trpl_end = dbl_end + 512 * 512 * 512

-- Every offset that `get_i_block` and `add_block_to_node` compute for an index in the range of its
-- level is a slot of an index block, and the slots give the index back: no two indices of a level
-- share their slots.
pub offsets_lem :
    (i : ℕ)
    → (12 ≤ i → i < indirect_end → IsSlot (indirect_offset i) × (12 + indirect_offset i / 8 ≡ i))
      × (indirect_end ≤ i
          → i < dbl_end
          → IsSlot (dbl_offset i)
            × IsSlot (dbl_indirect_offset i)
            × (indirect_end + dbl_offset i / 8 * 512 + dbl_indirect_offset i / 8 ≡ i))
      × (dbl_end ≤ i
          → i < trpl_end
          → IsSlot (trpl_offset i)
            × IsSlot (trpl_dbl_offset i)
            × IsSlot (trpl_indirect_offset i)
            × (dbl_end
                  + (trpl_offset i / 8 * 512 + trpl_dbl_offset i / 8) * 512
                  + trpl_indirect_offset i / 8
                ≡ i))
offsets_lem i = (λ p q. omega arith, λ p q. omega arith, λ p q. omega arith)
