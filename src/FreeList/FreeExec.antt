-- ===== src/FreeList/FreeExec.antt =====
-- What `free_block` does to the bytes of the device, without file positions.
use tyrant_fs.Base.{
  ℕ, zero, suc, Option, none, some, ◌+◌, ◌-◌, ◌*◌, ◌^◌, ◌≤◌, ◌<◌, ◌≡◌, refl, ap, ◌∙◌, ◌≢◌, inl, inr,
  false, arith, ◌==◌, if◌then◌else◌, Bool-cases, ==→eq, ne→==, replicate, length-replicate, length,
}
use tyrant_fs.Base.Bytes.{Memory, store, word, le_bytes}
use tyrant_fs.Base.Word.{add64, sub64}
use tyrant_fs.Base.Int.{ℤ, pos, is_neg}
use tyrant_fs.Device.{Fs, write}
use tyrant_fs.Device.Command.{Run, ret, Returns}
use tyrant_fs.Device.Rules.{lseek_set-le, lseek_back-le, read_u64-le, write_u64-le, write-le}
use tyrant_fs.FreeList.{put_slot, put_first, free_scan, free_block}
use tyrant_fs.FreeList.Exec.{Leaves}

-- The byte offset of the first of `k` words, from offset `i` of block `b` on, that is zero.
unfoldable pub first_empty : Memory → ℕ → ℕ → ℕ → Option ℕ
first_empty f b zero i = none
first_empty f b (suc k) i = if word f (b + i) == 0 then some i else first_empty f b k (i + 8)

-- Memory with block `b` cleared.
unfoldable pub wipe : Memory → ℕ → Memory
wipe f b = store f b (replicate 4096 0)

-- The bytes after `block` went into the slot at offset `j` of list block `b`.
unfoldable pub put_pure : Memory → ℕ → ℕ → ℕ → Memory
put_pure f block b j =
    let g = store f (b + j) (le_bytes 8 block) in if j == 4088 then wipe g block else g

unfoldable pub after_free : Memory → ℕ → ℕ → Option ℕ → Memory
after_free f block b none =
    store (store (wipe f block) (block + 4088) (le_bytes 8 b)) 0 (le_bytes 8 block)
after_free f block b (some j) = put_pure f block b j

-- The new bytes after `free_block`.
unfoldable pub free_pure : Memory → ℕ → Memory
free_pure f block =
    let b = word f 0 in
    if b == 0
    then wipe (store f 0 (le_bytes 8 block)) block
    else after_free f block b (first_empty f b 512 0)

pub first_empty-bound :
    (f : Memory) (b k i : ℕ) {j : ℕ}
    → first_empty f b k i ≡ some j
    → (i ≤ j) × (j + 8 ≤ i + 8 * k) × (word f (b + j) ≡ 0)
unfolding first_empty
first_empty-bound f b zero i h = absurd (ground arith)
first_empty-bound f b (suc k) i h = elim (Bool-cases (word f (b + i) == 0)) [
  | inl e ↦ ground (arith, ==→eq _ 0 e)
  | inr e ↦ let r = first_empty-bound f b k (i + 8) (rw e at h) in (omega arith, omega arith, r.2)
]

-- A wipe of a block within the device.
pub write-wipe :
    (s : Fs)
    → s.at + 4096 ≤ s.size
    → write (replicate 4096 0) s
      ≡ ret (pos 4096) (record s { byte = wipe s.byte s.at; at = s.at + 4096 })
unfolding wipe
write-wipe s h =
    let n : length {A = ℕ} (replicate 4096 0) ≡ 4096 = length-replicate 4096 0 in
    write-le s (replicate 4096 0) (omega arith) (omega arith)
    ∙ ap (λ k. ret (pos k) (record s { byte = wipe s.byte s.at; at = s.at + k })) n

module _ (s : Fs) (block : ℕ) (fits : block + 4096 ≤ s.size) (small : s.size < 2 ^ 63) where
  module _ (b : ℕ) (b_fits : b + 4096 ≤ s.size) where
    abbrev after_scan : ℕ → Option ℕ → Run Fs ℤ
    after_scan next none = put_first next block (record s { at = b + 4096 })
    after_scan next (some j) = put_slot j block (record s { at = b + j + 8 })

    scan_lem :
        (k i last : ℕ)
        → i + 8 * k ≡ 4096
        → free_scan k i (b + i) last block (record s { at = b + i })
          ≡ after_scan (b + 4096) (first_empty s.byte b k i)
    unfolding free_scan first_empty
    scan_lem zero i last e = ap (λ p. put_first p block (record s { at = p })) (omega arith)
    scan_lem (suc k) i last e =
        rw (read_u64-le (record s { at = b + i }) last (omega arith))
          (elim (Bool-cases (word s.byte (b + i) == 0)) [
            | inl h ↦ rw h refl
            | inr h ↦ rw h (
                let wrap : add64 (b + i) 8 ≡ b + (i + 8) = omega arith in
                let step : b + i + 8 ≡ b + (i + 8) = omega arith in
                rw (wrap, step) (scan_lem k (i + 8) (word s.byte (b + i)) (omega arith)))
          ])

    put_first-Leaves :
        Returns
          (Leaves s (pos 0) (after_free s.byte block b none))
          (put_first (b + 4096) block (record s { at = b + 4096 }))
    unfolding put_first after_free
    put_first-Leaves =
        let last : sub64 (add64 block 4096) 8 ≡ block + 4088 = omega arith in
        let first : sub64 (b + 4096) 4096 ≡ b = omega arith in
        let s₁ : Fs = record s { byte = wipe s.byte block; at = block + 4096 } in
        let s₂ : Fs = record s {
          byte = store s₁.byte (block + 4088) (le_bytes 8 b);
          at = block + 4088 + 8;
        } in
        rw
          (
            lseek_set-le (record s { at = b + 4096 }) block (omega arith),
            write-wipe (record s { at = block }) fits,
            last,
            first,
            lseek_set-le s₁ (block + 4088) (omega arith),
            write_u64-le (record s₁ { at = block + 4088 }) b (omega arith),
            lseek_set-le s₂ 0 (omega arith),
            write_u64-le (record s₂ { at = 0 }) block (omega arith),
          )
          (record { result = refl; bytes = refl })

    put_slot-Leaves :
        (j : ℕ)
        → j + 8 ≤ 4096
        → Returns
            (Leaves s (pos 0) (put_pure s.byte block b j))
            (put_slot j block (record s { at = b + j + 8 }))
    unfolding put_slot put_pure
    put_slot-Leaves j h =
        let back : b + j + 8 - 8 ≡ b + j = omega arith in
        let s₁ : Fs = record s { byte = store s.byte (b + j) (le_bytes 8 block); at = b + j + 8 } in
        rw
          (
            lseek_back-le (record s { at = b + j + 8 }) 8 (omega arith),
            back,
            write_u64-le (record s { at = b + j }) block (omega arith),
          )
          (elim (Bool-cases (j == 4088)) [
            | inl e ↦ rw e (
                rw (lseek_set-le s₁ block (omega arith), write-wipe (record s₁ { at = block }) fits)
                  (record { result = refl; bytes = refl }))
            | inr e ↦ rw e (record { result = refl; bytes = refl })
          ])

    scan-Leaves :
        Returns
          (Leaves s (pos 0) (after_free s.byte block b (first_empty s.byte b 512 0)))
          (free_scan 512 0 b 0 block (record s { at = b }))
    unfolding after_free put_pure
    scan-Leaves =
        let start : b ≡ b + 0 = omega arith in
        let run =
          ap (λ p. free_scan 512 0 p 0 block (record s { at = p })) start ∙ scan_lem 512 0 0 refl in
        rw run (after (first_empty s.byte b 512 0) refl)
      where
        after :
            (o : Option ℕ)
            → first_empty s.byte b 512 0 ≡ o
            → Returns (Leaves s (pos 0) (after_free s.byte block b o)) (after_scan (b + 4096) o)
        after none e = put_first-Leaves
        after (some j) e = put_slot-Leaves j (omega (arith, (first_empty-bound s.byte b 512 0 e).1))

  -- `free_block` succeeds and leaves the bytes that `free_pure` gives.
  pub free_block-Leaves :
      (fd : ℤ)
      → is_neg fd ≡ false
      → block ≢ 0
      → 8 ≤ s.size
      → word s.byte 0 + 4096 ≤ s.size
      → Returns (Leaves s (pos 0) (free_pure s.byte block)) (free_block fd block s)
  unfolding free_block free_pure
  free_block-Leaves fd open_fd ne h b_fits =
      rw
        (
          open_fd,
          ne→== block 0 ne,
          lseek_set-le s 0 (omega arith),
          read_u64-le (record s { at = 0 }) 0 h,
        )
        (elim (Bool-cases (word s.byte 0 == 0)) [
          | inl e ↦ rw e (
              let s₁ : Fs = record s { byte = store s.byte 0 (le_bytes 8 block); at = 8 } in
              rw
                (
                  lseek_set-le (record s { at = 8 }) 0 (omega arith),
                  write_u64-le (record s { at = 0 }) block h,
                  lseek_set-le s₁ block (omega arith),
                  write-wipe (record s₁ { at = block }) fits,
                )
                (record { result = refl; bytes = refl }))
          | inr e ↦ rw e (
              rw (lseek_set-le (record s { at = 8 }) (word s.byte 0) (omega arith))
                (scan-Leaves (word s.byte 0) b_fits))
        ])
