-- ===== src/BlockMap/Address.antt =====
-- `get_i_block` as a function of the device's bytes: the address of each block of an inode, and the
-- index blocks on the way to it.
use tyrant_fs.Base.{
  ℕ, ◌+◌, ◌^◌, ◌≤◌, ◌<◌, ◌≡◌, refl, sym, inl, inr, List, [], ◌∷◌, arith, Bool-cases, ltb, ltb→lt,
  lt→leb, ne→==, if◌then◌else◌, get_or, ◌*◌, ◌-◌, ◌/◌, ◌%◌,
}
use tyrant_fs.Base.Bytes.{Memory, word, bytes_at, le_value}
use tyrant_fs.Device.{Fs, stale_u64}
use tyrant_fs.Device.Command.{ret, Returns}
use tyrant_fs.Block.{read_block_u64}
use tyrant_fs.Block.Io.{read_block_u64-ok}
use tyrant_fs.Inode.{Node}
use tyrant_fs.Inode.Search.{OnlyAt}
use tyrant_fs.FreeList.Chain.{IsBlock, SameBlock}
use tyrant_fs.BlockMap.{
  get_i_block, indirect_end, dbl_end, indirect_offset, dbl_offset, dbl_indirect_offset, trpl_offset,
  trpl_dbl_offset, trpl_indirect_offset,
}
use tyrant_fs.BlockMap.Offsets.{trpl_end}

-- The slot with number `k` of the index block at `table`.
abbrev slot : ℕ → ℕ → ℕ
slot table k = table + k * 8

-- The address of block `i`: 12 direct ones, then 512 behind the indirect block, 512 ^ 2 behind the
-- double and 512 ^ 3 behind the triple one, where the digits of the index in its level, in base 512,
-- are the numbers of the slots.
unfoldable pub block_at : Memory → Node → ℕ → ℕ
block_at f n i =
    if ltb i 12
    then get_or n.direct_blocks i 0
    else if ltb i 524
    then word f (slot n.indirect_blocks (i - 12))
    else if ltb i 262668
    then word f (slot (word f (slot n.dbl_indirect ((i - 524) / 512))) ((i - 524) % 512))
    else word f (
        slot
          (word f (
            slot (word f (slot n.trpl_indirect ((i - 262668) / 262144)))
              ((i - 262668) % 262144 / 512)))
          ((i - 262668) % 512))

-- The index blocks that lead to it.
unfoldable pub tables : Memory → Node → ℕ → List ℕ
tables f n i =
    if ltb i 12
    then []
    else if ltb i 524
    then n.indirect_blocks ∷ []
    else if ltb i 262668
    then n.dbl_indirect ∷ word f (slot n.dbl_indirect ((i - 524) / 512)) ∷ []
    else n.trpl_indirect
      ∷ word f (slot n.trpl_indirect ((i - 262668) / 262144))
      ∷ word f (
          slot (word f (slot n.trpl_indirect ((i - 262668) / 262144)))
            ((i - 262668) % 262144 / 512))
      ∷ []

abbrev pub All {ℓ} : (ℕ → Type ℓ) → List ℕ → Type ℓ
All P [] = Unit
All P (x ∷ xs) = P x × All P xs

-- A slot of an index block.
read_slot :
    (s : Fs) (b offset old : ℕ)
    → IsBlock s.size b
    → s.size < 2 ^ 63
    → offset + 8 ≤ 4096
    → read_block_u64 old b offset s
      ≡ ret (word s.byte (b + offset)) (record s { at = b + offset + 8 })
read_slot s b offset old ok small fits =
    read_block_u64-ok s b offset (record { inside = ok.inside; small = small }) fits old
      (omega (arith, ok.behind))

-- Where the index blocks are blocks of the device, `get_i_block` ends with the address, for every
-- index below the number of blocks that the three levels reach, and changes nothing but the file
-- position.
pub get_i_block-block_at :
    (n : Node) (i : ℕ) (s : Fs)
    → i < n.blocks
    → i < trpl_end
    → All (IsBlock s.size) (tables s.byte n i)
    → s.size < 2 ^ 63
    → Returns (λ x t. (x ≡ block_at s.byte n i) × OnlyAt s t) (get_i_block n i s)
unfolding get_i_block block_at tables stale_u64
get_i_block-block_at n i s h reach ok small =
    rw (ne→== n.blocks 0 (omega arith), lt→leb n.blocks i h)
      (elim (Bool-cases (ltb i 12)) [
        | inl a ↦ rw a (refl, refl)
        | inr a ↦ elim (Bool-cases (ltb i indirect_end)) [
          | inl b ↦
              let t : All (IsBlock s.size) (n.indirect_blocks ∷ []) = (rw (a, b) at ok) in
              rw
                (
                  a,
                  b,
                  ne→== n.indirect_blocks 0 (omega (arith, (t.0).behind)),
                  read_slot s n.indirect_blocks (indirect_offset i)
                      (le_value (bytes_at s.env.stale 0 8)) t.0 small (ground (arith, a, b)),
                )
                (refl, refl)
          | inr b ↦ elim (Bool-cases (ltb i dbl_end)) [
            | inl c ↦
                let at1 : ℕ = slot n.dbl_indirect ((i - 524) / 512) in
                let t : All (IsBlock s.size) (n.dbl_indirect ∷ word s.byte at1 ∷ []) =
                  (rw (a, b, c) at ok) in
                let in_dbl : i < dbl_end = ltb→lt i dbl_end c in
                let e1 : dbl_offset i ≡ (i - 524) / 512 * 8 = omega arith in
                let e2 : dbl_indirect_offset i ≡ (i - 524) % 512 * 8 = omega arith in
                rw
                  (
                    a,
                    b,
                    c,
                    ne→== n.dbl_indirect 0 (omega (arith, (t.0).behind)),
                    e1,
                    e2,
                    read_slot s n.dbl_indirect ((i - 524) / 512 * 8) 0 t.0 small (omega arith),
                    read_slot (record s { at = at1 + 8 }) (word s.byte at1) ((i - 524) % 512 * 8)
                        (le_value (bytes_at s.env.stale 0 8)) (t.1).0 small (omega arith),
                  )
                  (refl, refl)
            | inr c ↦
                let j : ℕ = i - 262668 in
                let w1 : ℕ = word s.byte (slot n.trpl_indirect (j / 262144)) in
                let w2 : ℕ = word s.byte (slot w1 (j % 262144 / 512)) in
                let t : All (IsBlock s.size) (n.trpl_indirect ∷ w1 ∷ w2 ∷ []) =
                  (rw (a, b, c) at ok) in
                let e1 : trpl_offset i ≡ j / 262144 * 8 = omega arith in
                let e2 : trpl_dbl_offset i ≡ j % 262144 / 512 * 8 = omega arith in
                let e3 : trpl_indirect_offset i ≡ j % 512 * 8 = omega arith in
                rw
                  (
                    a,
                    b,
                    c,
                    ne→== n.trpl_indirect 0 (omega (arith, (t.0).behind)),
                    e1,
                    e2,
                    e3,
                    read_slot s n.trpl_indirect (j / 262144 * 8) 0 t.0 small (omega arith),
                    read_slot (record s { at = slot n.trpl_indirect (j / 262144) + 8 }) w1
                        (j % 262144 / 512 * 8) 0 (t.1).0 small (omega arith),
                    read_slot (record s { at = slot w1 (j % 262144 / 512) + 8 }) w2 (j % 512 * 8)
                        (le_value (bytes_at s.env.stale 0 8)) ((t.1).1).0 small (omega arith),
                  )
                  (refl, refl)
          ]
        ]
      ])

-- Where the index blocks keep their words, they lead to the same addresses.
pub block_at_congr :
    (f g : Memory) (n : Node) (i : ℕ)
    → i < trpl_end
    → All (SameBlock f g) (tables f n i)
    → (block_at g n i ≡ block_at f n i) × (tables g n i ≡ tables f n i)
unfolding block_at tables
block_at_congr f g n i reach same = elim (Bool-cases (ltb i 12)) [
  | inl a ↦ rw a (refl, refl)
  | inr a ↦ elim (Bool-cases (ltb i 524)) [
    | inl b ↦
        let t : All (SameBlock f g) (n.indirect_blocks ∷ []) = (rw (a, b) at same) in
        let e = t.0 (indirect_offset i) (ground (arith, a, b)) in rw (a, b) (sym e, refl)
    | inr b ↦ elim (Bool-cases (ltb i 262668)) [
      | inl c ↦
          let w : ℕ = word f (slot n.dbl_indirect ((i - 524) / 512)) in
          let t : All (SameBlock f g) (n.dbl_indirect ∷ w ∷ []) = (rw (a, b, c) at same) in
          let in_dbl : i < 262668 = ltb→lt i 262668 c in
          let e1 : word g (slot n.dbl_indirect ((i - 524) / 512)) ≡ w =
            sym (t.0 ((i - 524) / 512 * 8) (omega arith)) in
          let e2 = (t.1).0 ((i - 524) % 512 * 8) (omega arith) in rw (a, b, c, e1) (sym e2, refl)
      | inr c ↦
          let w1 : ℕ = word f (slot n.trpl_indirect ((i - 262668) / 262144)) in
          let w2 : ℕ = word f (slot w1 ((i - 262668) % 262144 / 512)) in
          let t : All (SameBlock f g) (n.trpl_indirect ∷ w1 ∷ w2 ∷ []) = (rw (a, b, c) at same) in
          let e1 : word g (slot n.trpl_indirect ((i - 262668) / 262144)) ≡ w1 =
            sym (t.0 ((i - 262668) / 262144 * 8) (omega arith)) in
          let e2 : word g (slot w1 ((i - 262668) % 262144 / 512)) ≡ w2 =
            sym ((t.1).0 ((i - 262668) % 262144 / 512 * 8) (omega arith)) in
          let e3 = ((t.1).1).0 ((i - 262668) % 512 * 8) (omega arith) in
          rw (a, b, c, e1, e2) (sym e3, refl)
    ]
  ]
]
