-- ===== src/Device/Rules.antt =====
-- What the device's calls return where the transfer lies within the device.
use tyrant_fs.Base.{
  ℕ, ◌+◌, ◌-◌, ◌≤◌, ◌<◌, ◌≡◌, ap, ◌∙◌, List, arith, length, take_all, le→leb, lt→leb, lt→ltb,
}
use tyrant_fs.Base.Bytes.{
  bytes_at, store, word, le_bytes, overlay_full, length-bytes_at, length-le_bytes,
}
use tyrant_fs.Base.Int.{pos}
use tyrant_fs.Base.{refl, Bool-cases, ◌⊎◌, inl, inr, ◌&&◌, length-take, ltb, leb, take}
use tyrant_fs.Base.Store.{store_below, store_above}
use tyrant_fs.Device.Command.{Returns}
use tyrant_fs.Device.Command.{ret}
use tyrant_fs.Device.{Fs, lseek_set, lseek_back, read, write, read_u64, write_u64}

module _ (s : Fs) where
  pub lseek_set-le : (a : ℕ) → a ≤ s.size → lseek_set a s ≡ ret tt (record s { at = a })
  unfolding lseek_set
  lseek_set-le a h = rw (le→leb a s.size h)

  pub lseek_back-le : (n : ℕ) → n ≤ s.at → lseek_back n s ≡ ret tt (record s { at = s.at - n })
  unfolding lseek_back
  lseek_back-le n h = rw (le→leb n s.at h)

  pub read-le :
      (n : ℕ)
      → s.at + n ≤ s.size
      → read n s ≡ ret (bytes_at s.byte s.at n) (record s { at = s.at + n })
  unfolding read
  read-le n h = ap (λ k. ret (bytes_at s.byte s.at k) (record s { at = s.at + k })) (omega arith)

  pub write-le :
      (bs : List ℕ)
      → 0 < length bs
      → s.at + length bs ≤ s.size
      → write bs s
        ≡ ret (pos (length bs)) (record s { byte = store s.byte s.at bs; at = s.at + length bs })
  unfolding write
  write-le bs p h = rw (
    lt→ltb 0 (length bs) p,
    lt→leb s.size s.at (omega arith),
    take_all (s.size - s.at) bs (omega arith),
  )

  pub read_u64-le :
      (old : ℕ)
      → s.at + 8 ≤ s.size
      → read_u64 old s ≡ ret (word s.byte s.at) (record s { at = s.at + 8 })
  unfolding read_u64 word
  read_u64-le old h = rw (
    read-le 8 h,
    overlay_full (bytes_at s.byte s.at 8) (le_bytes 8 old)
        (omega (arith, length-le_bytes 8 old, length-bytes_at s.byte s.at 8)),
  )

  pub write_u64-le :
      (v : ℕ)
      → s.at + 8 ≤ s.size
      → write_u64 v s
        ≡ ret (pos 8) (record s { byte = store s.byte s.at (le_bytes 8 v); at = s.at + 8 })
  unfolding write_u64
  write_u64-le v h =
      write-le (le_bytes 8 v) (omega (arith, length-le_bytes 8 v))
        (omega (arith, length-le_bytes 8 v))
      ∙ ap (λ k. ret (pos k) (record s { byte = store s.byte s.at (le_bytes 8 v); at = s.at + k }))
          (length-le_bytes 8 v)

-- A write, long or short, changes nothing outside the range that it is for.
pub write_confined :
    (s : Fs) (bs : List ℕ)
    → Returns
        (λ r t. (x : ℕ) → (x < s.at) ⊎ (s.at + length bs ≤ x) → t.byte x ≡ s.byte x)
        (write bs s)
unfolding write
write_confined s bs = elim (Bool-cases (ltb 0 (length bs) && leb s.size s.at)) [
  | inl h ↦ rw h (λ x o. refl)
  | inr h ↦ rw h (λ x o. elim o [
    | inl p ↦ store_below s.byte s.at (take (s.size - s.at) bs) x p
    | inr p ↦
        store_above s.byte s.at (take (s.size - s.at) bs) x
          (omega (arith, length-take (s.size - s.at) bs))
  ])
]
