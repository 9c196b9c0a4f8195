-- ===== src/FreeList/Exec.antt =====
-- What `allocate_block` and `free_block` do to the bytes of the device, without file positions.
use tyrant_fs.Base.{
  ℕ, zero, suc, Option, none, some, ◌+◌, ◌-◌, ◌*◌, ◌≤◌, ◌≡◌, refl, ap, ◌∙◌, ◌≢◌, inl, inr, arith,
  ◌==◌, if◌then◌else◌, Bool-cases, ==→ne,
}
use tyrant_fs.Base.Bytes.{Memory, store, word, le_bytes}
use tyrant_fs.Device.{Fs}
use tyrant_fs.Device.Command.{Run, Returns}
use tyrant_fs.Device.Rules.{lseek_set-le, lseek_back-le, read_u64-le, write_u64-le}
use tyrant_fs.FreeList.{take_slot, take_last, alloc_scan, allocate_block}

-- The byte offset of the first of `k` words, from offset `i` of block `b` on, that is not zero.
unfoldable pub first_used : Memory → ℕ → ℕ → ℕ → Option ℕ
first_used f b zero i = none
first_used f b (suc k) i = if word f (b + i) == 0 then first_used f b k (i + 8) else some i

-- The result of `take_slot` at offset `j` of list block `b` with address `v`, and the new bytes.
unfoldable pub slot_pure : Memory → ℕ → ℕ → ℕ → ℕ × Memory
slot_pure f b j v =
    let g = store f (b + j) (le_bytes 8 0) in
    if j == 4088 then (word g 0, store g 0 (le_bytes 8 v)) else (v, g)

unfoldable pub after_pure : Memory → ℕ → Option ℕ → ℕ × Memory
after_pure f b none = (b, store f 0 (le_bytes 8 0))
after_pure f b (some j) = slot_pure f b j (word f (b + j))

-- The result of `allocate_block` and the new bytes.
unfoldable pub alloc_pure : Memory → ℕ × Memory
unfolding after_pure
alloc_pure f = let b = word f 0 in if b == 0 then (0, f) else after_pure f b (first_used f b 512 0)

-- The command ends with result `a` and bytes `g`, and changes nothing else but the position.
pub record Leaves {A : Type 0} (s : Fs) (a : A) (g : Memory) (r : A) (t : Fs) : Type 0 where
  pub result : r ≡ a
  pub bytes : t ≡ record s { byte = g; at = t.at }

-- What follows the loop of `allocate_block`.
abbrev after_scan : Fs → ℕ → Option ℕ → Run Fs ℕ
after_scan s b none = take_last (record s { at = b + 4096 })
after_scan s b (some j) = take_slot j (word s.byte (b + j)) (record s { at = b + j + 8 })

module _ (s : Fs) (b : ℕ) (fits : b + 4096 ≤ s.size) where
  scan_lem :
      (k i : ℕ)
      → i + 8 * k ≡ 4096
      → alloc_scan k i (record s { at = b + i }) ≡ after_scan s b (first_used s.byte b k i)
  unfolding alloc_scan first_used
  scan_lem zero i e = ap (λ p. take_last (record s { at = p })) (omega arith)
  scan_lem (suc k) i e =
      rw (read_u64-le (record s { at = b + i }) 0 (omega arith))
        (elim (Bool-cases (word s.byte (b + i) == 0)) [
          | inl h ↦ rw h (
              ap (λ p. alloc_scan k (i + 8) (record s { at = p })) (omega arith)
              ∙ scan_lem k (i + 8) (omega arith))
          | inr h ↦ rw h refl
        ])

  scan_from_start :
      alloc_scan 512 0 (record s { at = b }) ≡ after_scan s b (first_used s.byte b 512 0)
  scan_from_start =
      let start : b ≡ b + 0 = omega arith in
      ap (λ p. alloc_scan 512 0 (record s { at = p })) start ∙ scan_lem 512 0 refl

  -- The list block is empty, and so the last free block.
  take_last-Leaves :
      Returns
        (Leaves s (word s.byte 0) (store s.byte 0 (le_bytes 8 0)))
        (take_last (record s { at = b + 4096 }))
  unfolding take_last
  take_last-Leaves =
      rw
        (
          lseek_set-le (record s { at = b + 4096 }) 0 (omega arith),
          read_u64-le (record s { at = 0 }) 0 (omega arith),
          lseek_back-le (record s { at = 0 + 8 }) 8 (omega arith),
          write_u64-le (record s { at = 0 + 8 - 8 }) 0 (omega arith),
        )
        (record { result = refl; bytes = refl })

  -- An address is taken from its slot; the last slot's address becomes the first list block.
  take_slot-Leaves :
      (j v : ℕ)
      → j + 8 ≤ 4096
      → let (a, g) = slot_pure s.byte b j v in
        Returns (Leaves s a g) (take_slot j v (record s { at = b + j + 8 }))
  unfolding take_slot slot_pure
  take_slot-Leaves j v h =
      let back : b + j + 8 - 8 ≡ b + j = omega arith in
      rw
        (
          lseek_back-le (record s { at = b + j + 8 }) 8 (omega arith),
          back,
          write_u64-le (record s { at = b + j }) 0 (omega arith),
        )
        (elim (Bool-cases (j == 4088)) [
          | inl e ↦ rw e (
              let s₁ : Fs = record s {
                byte = store s.byte (b + j) (le_bytes 8 0);
                at = b + j + 8;
              } in
              rw
                (
                  lseek_set-le s₁ 0 (omega arith),
                  read_u64-le (record s₁ { at = 0 }) v (omega arith),
                  lseek_set-le (record s₁ { at = 0 + 8 }) 0 (omega arith),
                  write_u64-le (record s₁ { at = 0 }) v (omega arith),
                )
                (record { result = refl; bytes = refl }))
          | inr e ↦ rw e (record { result = refl; bytes = refl })
        ])

-- Every slot found lies in the list block.
pub first_used-bound :
    (f : Memory) (b k i : ℕ) {j : ℕ}
    → first_used f b k i ≡ some j
    → (i ≤ j) × (j + 8 ≤ i + 8 * k) × (word f (b + j) ≢ 0)
unfolding first_used
first_used-bound f b zero i h = absurd (ground arith)
first_used-bound f b (suc k) i h = elim (Bool-cases (word f (b + i) == 0)) [
  | inl e ↦ let r = first_used-bound f b k (i + 8) (rw e at h) in (omega arith, omega arith, r.2)
  | inr e ↦ ground (arith, ==→ne _ 0 e)
]

-- `allocate_block` returns what `alloc_pure` does, and leaves its bytes.
pub allocate_block-Leaves :
    (s : Fs)
    → 8 ≤ s.size
    → word s.byte 0 + 4096 ≤ s.size
    → let (a, g) = alloc_pure s.byte in Returns (Leaves s a g) (allocate_block s)
unfolding allocate_block alloc_pure after_pure
allocate_block-Leaves s h fits =
    rw (lseek_set-le s 0 (omega arith), read_u64-le (record s { at = 0 }) 0 h)
      (elim (Bool-cases (word s.byte 0 == 0)) [
        | inl e ↦ rw e (record { result = refl; bytes = refl })
        | inr e ↦ rw e (
            rw
              (
                lseek_set-le (record s { at = 0 + 8 }) (word s.byte 0) (omega arith),
                scan_from_start s (word s.byte 0) fits,
              )
              (after (first_used s.byte (word s.byte 0) 512 0) refl))
      ])
  where
    after :
        (o : Option ℕ)
        → first_used s.byte (word s.byte 0) 512 0 ≡ o
        → let (a, g) = after_pure s.byte (word s.byte 0) o in
          Returns (Leaves s a g) (after_scan s (word s.byte 0) o)
    after none e = take_last-Leaves s (word s.byte 0) fits
    after (some j) e =
        take_slot-Leaves s (word s.byte 0) fits j (word s.byte (word s.byte 0 + j))
          (omega (arith, (first_used-bound s.byte (word s.byte 0) 512 0 e).1))
