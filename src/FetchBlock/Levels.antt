-- ===== src/FetchBlock/Levels.antt =====
-- Which blocks `fetch_block` reads.
use tyrant_fs.Base.{
  ℕ, zero, suc, ◌+◌, ◌-◌, ◌*◌, ◌/◌, ◌%◌, ◌≤◌, ◌<◌, ◌≡◌, ◌≢◌, refl, inl, inr, List, [], ◌∷◌, Bool,
  true, false, arith, leb, ltb, ltb→lt, lt→ltb, le→ltb, lt→leb, le→leb, Bool-cases, ne→==, get_or,
  length, ◌^◌,
}
use tyrant_fs.Base.Bytes.{word, bytes_at, le_bytes, length-bytes_at, overlay_full, length-le_bytes}
use tyrant_fs.Base.Word.{sub64}
use tyrant_fs.Device.{Fs}
use tyrant_fs.Device.Command.{ret, Returns}
use tyrant_fs.Block.Io.{read_block-ok, read_block_u64-ok}
use tyrant_fs.Inode.{Node}
use tyrant_fs.Inode.Io.{inode_at, fetch_new-ok}
use tyrant_fs.Inode.Search.{OnlyAt}
use tyrant_fs.FreeList.Chain.{IsBlock}
use tyrant_fs.BlockMap.{dbl_end}
use tyrant_fs.BlockMap.Address.{block_at, tables, All}
use tyrant_fs.Files.Contents.{IsMapped}
use tyrant_fs.FetchBlock.{read_data, fetch_dbl, fetch_block}

-- The buffer gets the block at `block`, and a pointer is returned.
abbrev pub Gives : Fs → ℕ → Bool × List ℕ → Fs → Type 0
Gives s block r t = (r ≡ (true, bytes_at s.byte block 4096)) × OnlyAt s t

read_data-Gives :
    (s : Fs) (block p : ℕ) (old : List ℕ)
    → IsBlock s.size block
    → s.size < 2 ^ 63
    → length old ≤ 4096
    → Returns (Gives s block) (read_data block old (record s { at = p }))
unfolding read_data
read_data-Gives s block p old ok small short =
    let start : block + 0 ≡ block = omega arith in
    rw
      (
        read_block-ok (record s { at = p }) block 0 (record { inside = ok.inside; small = small })
            (omega arith) 4096 (omega (arith, ok.behind)) (omega arith),
        start,
        overlay_full (bytes_at s.byte block 4096) old
            (omega (arith, short, length-bytes_at s.byte block 4096)),
      )
      (refl, refl)

-- Rounds that do not come to the slot.
fetch_dbl-none :
    (s : Fs) (dbl off : ℕ) (old : List ℕ) (k j : ℕ)
    → j + k ≡ 512
    → 511 * 512 ≤ off
    → fetch_dbl k (j * 512) dbl off old s ≡ ret (false, old) s
unfolding fetch_dbl
fetch_dbl-none s dbl off old zero j e far = refl
fetch_dbl-none s dbl off old (suc k) j e far =
    let next : j * 512 + 512 ≡ suc j * 512 = omega arith in
    rw (le→ltb off (j * 512) (omega arith), next)
      (fetch_dbl-none s dbl off old k (suc j) (omega arith) far)

module _ (s : Fs) (dbl off : ℕ) (old : List ℕ) (small : s.size < 2 ^ 63) (short : length old ≤ 4096)
    (top : IsBlock s.size dbl) where
  abbrev indir : ℕ
  indir = word s.byte (dbl + off / 512 * 8)

  abbrev goal : ℕ
  goal = word s.byte (indir + off % 512 * 8)

  fetch_dbl-Gives :
      (k j p : ℕ)
      → j + k ≡ 512
      → off < 511 * 512
      → j ≤ off / 512 + 1
      → IsBlock s.size indir
      → IsBlock s.size goal
      → Returns (Gives s goal) (fetch_dbl k (j * 512) dbl off old (record s { at = p }))
  unfolding fetch_dbl word
  fetch_dbl-Gives zero j p e near l mid ok = absurd (omega arith)
  fetch_dbl-Gives (suc k) j p e near l mid ok = elim (Bool-cases (ltb off (j * 512))) [
    | inl here ↦
        let h = ltb→lt off (j * 512) here in
        let slot : sub64 (j * 512 / 512) 1 * 8 ≡ off / 512 * 8 = omega arith in
        let rest : sub64 off (j * 512 - 512) * 8 ≡ off % 512 * 8 = omega arith in
        let full = length-bytes_at s.byte (dbl + off / 512 * 8) 8 in
        let some_bytes : length (bytes_at s.byte (dbl + off / 512 * 8) 8) ≢ 0 =
          omega (arith, full) in
        rw
          (
            here,
            slot,
            read_block-ok (record s { at = p }) dbl (off / 512 * 8)
                (record { inside = top.inside; small = small }) (omega arith) 8
                (omega (arith, top.behind)) (omega arith),
            overlay_full (bytes_at s.byte (dbl + off / 512 * 8) 8) (le_bytes 8 0)
                (omega (arith, full, length-le_bytes 8 0)),
            ne→== indir 0 (omega (arith, mid.behind)),
            ne→== (length (bytes_at s.byte (dbl + off / 512 * 8) 8)) 0 some_bytes,
            rest,
            read_block_u64-ok (record s { at = dbl + off / 512 * 8 + 8 }) indir (off % 512 * 8)
                (record { inside = mid.inside; small = small }) (omega arith) 0
                (omega (arith, mid.behind)),
            ne→== goal 0 (omega (arith, ok.behind)),
          )
          (read_data-Gives s goal _ old ok small short)
    | inr later ↦
        let next : j * 512 + 512 ≡ suc j * 512 = omega arith in
        rw (later, next)
          (fetch_dbl-Gives k (suc j) p (omega arith) near (ground (arith, later)) mid ok)
  ]

-- On a device of less than 2 ^ 63 bytes, for an inode on it whose blocks and index blocks lie on it,
-- the blocks apart from each other and from the index blocks, and a buffer of at most a block: `fetch_block` of an index from its number of blocks on returns NULL. Below, it puts the block
-- to which the inode and its index blocks lead for the index into the buffer and returns it, up to index
-- 262155; for the last 512 indices that the double indirect block reaches it returns NULL. It changes
-- nothing but the file position.
pub fetch_block_lem :
    (negative : ℕ → ℕ) (s : Fs) (cur i : ℕ) (old : List ℕ)
    → cur ≢ 0
    → cur + 256 ≤ s.size
    → IsMapped s.byte s.size (inode_at s.byte cur)
    → length old ≤ 4096
    → ((inode_at s.byte cur).blocks ≤ i
        → Returns (λ r t. (r ≡ (false, old)) × OnlyAt s t) (fetch_block negative cur i old s))
      × (i < (inode_at s.byte cur).blocks
          → i < 262156
          → Returns
              (Gives s (block_at s.byte (inode_at s.byte cur) i))
              (fetch_block negative cur i old s))
      × (i < (inode_at s.byte cur).blocks
          → 262156 ≤ i
          → i < dbl_end
          → Returns (λ r t. (r ≡ (false, old)) × OnlyAt s t) (fetch_block negative cur i old s))
unfolding fetch_block block_at tables
fetch_block_lem negative s cur i old ne inside v short =
    let n : Node = inode_at s.byte cur in
    let small = v.small in
    let fetched = fetch_new-ok s cur ne inside in
    (
      (λ past. rw (ne→== cur 0 ne, fetched, le→leb n.blocks i past) (refl, refl)),
      (λ h near.
          let ok = v.blocks_ok i h in
          let within : leb n.blocks i ≡ false = lt→leb n.blocks i h in
          elim (Bool-cases (ltb i 12)) [
            | inl a ↦
                let ok' : IsBlock s.size (get_or n.direct_blocks i 0) = (rw a at ok) in
                rw (ne→== cur 0 ne, fetched, within, a)
                  (read_data-Gives s (get_or n.direct_blocks i 0) (cur + 208) old ok' small short)
            | inr a ↦ elim (Bool-cases (ltb i 524)) [
              | inl b ↦
                  let t : All (IsBlock s.size) (n.indirect_blocks ∷ []) =
                    (rw (a, b) at (v.tables_ok i h)) in
                  let w : ℕ = word s.byte (n.indirect_blocks + (i - 12) * 8) in
                  let ok' : IsBlock s.size w = (rw (a, b) at ok) in
                  rw
                    (
                      ne→== cur 0 ne,
                      fetched,
                      within,
                      a,
                      b,
                      read_block_u64-ok (record s { at = cur + 208 }) n.indirect_blocks
                          ((i - 12) * 8) (record { inside = (t.0).inside; small = small })
                          (ground (arith, a, b)) 0 (omega (arith, (t.0).behind)),
                      ne→== w 0 (omega (arith, ok'.behind)),
                    )
                    (read_data-Gives s w (n.indirect_blocks + (i - 12) * 8 + 8) old ok' small short)
              | inr b ↦
                  let c : ltb i dbl_end ≡ true = lt→ltb i dbl_end (omega arith) in
                  let c' : ltb i 262668 ≡ true = c in
                  let off = i - 524 in
                  let same_off : i - 12 - 512 ≡ off = omega arith in
                  let w : ℕ = word s.byte (n.dbl_indirect + off / 512 * 8) in
                  let t : All (IsBlock s.size) (n.dbl_indirect ∷ w ∷ []) =
                    (rw (a, b, c) at (v.tables_ok i h)) in
                  let ok' : IsBlock s.size (word s.byte (w + off % 512 * 8)) =
                    (rw (a, b, c) at ok) in
                  rw (ne→== cur 0 ne, fetched, within, a, b, c', same_off)
                    (fetch_dbl-Gives s n.dbl_indirect off old small short t.0 512 0 (cur + 208)
                      (omega arith) (omega arith) (omega arith) (t.1).0 ok')
            ]
          ]),
      (λ h far near.
          let within : leb n.blocks i ≡ false = lt→leb n.blocks i h in
          let far' : 511 * 512 ≤ i - 12 - 512 = omega arith in
          rw
            (
              ne→== cur 0 ne,
              fetched,
              within,
              le→ltb i 12 (omega arith),
              le→ltb i 524 (omega arith),
              lt→ltb i 262668 (omega arith),
              fetch_dbl-none (record s { at = cur + 208 }) n.dbl_indirect (i - 12 - 512) old 512 0
                  (omega arith) far',
            )
            (refl, refl)),
    )
