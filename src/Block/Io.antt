-- ===== src/Block/Io.antt =====
-- What `read_block` and `write_block` transfer, for a block that lies on the device.
use tyrant_fs.Base.{
  ℕ, ◌+◌, ◌-◌, ◌^◌, ◌≤◌, ◌<◌, ◌≡◌, refl, sym, ap, ◌∙◌, ◌≢◌, ◌⊎◌, inl, inr, List, false, arith, ltb,
  Bool-cases, length, take, take_all, length-take, le→ltb, lt→leb, ne→==, lt→ltb,
}
use tyrant_fs.Base.Bytes.{
  bytes_at, store, word, le_bytes, overlay_full, length-bytes_at, length-le_bytes,
}
use tyrant_fs.Base.Store.{bytes_at-store}
use tyrant_fs.Base.Word.{add64}
use tyrant_fs.Base.Int.{pos}
use tyrant_fs.Device.{Fs, write}
use tyrant_fs.Device.Command.{ret, Returns, Returns-mono}
use tyrant_fs.Device.Rules.{lseek_set-le, read-le, write-le, write_confined}
use tyrant_fs.Block.{bad_offset, read_block, read_block_u64, write_block, write_block_u64}

-- The block lies on a device whose size is an `off_t`.
pub record IsOnDevice (s : Fs) (block : ℕ) : Type 0 where
  pub inside : block + 4096 ≤ s.size
  pub small : s.size < 2 ^ 63

good_offset : (offset : ℕ) → offset ≤ 4096 → bad_offset offset ≡ false
good_offset offset h = ground (arith, le→ltb 4096 offset, lt→leb (2 ^ 63) offset)

module _ (s : Fs) (block offset : ℕ) (on : IsOnDevice s block) (fits : offset ≤ 4096) where
  -- A read within the block.
  pub read_block-ok :
      (bytes : ℕ)
      → block ≢ 0
      → offset + bytes ≤ 4096
      → read_block block offset bytes s
        ≡ ret (bytes_at s.byte (block + offset) bytes) (record s { at = block + offset + bytes })
  unfolding read_block
  read_block-ok bytes ne h =
      let start : add64 block offset ≡ block + offset = omega (arith, on.inside, on.small) in
      rw
        (
          ne→== block 0 ne,
          good_offset offset fits,
          start,
          lseek_set-le s (block + offset) (omega (arith, on.inside)),
          le→ltb (4096 - offset) bytes (omega arith),
        )
        (read-le (record s { at = block + offset }) bytes (omega (arith, on.inside)))

  -- A request for more than the rest of the block is cut.
  pub read_block-cut :
      (bytes : ℕ)
      → block ≢ 0
      → 4096 < offset + bytes
      → read_block block offset bytes s
        ≡ ret
            (bytes_at s.byte (block + offset) (4096 - offset))
            (record s { at = block + offset + (4096 - offset) })
  unfolding read_block
  read_block-cut bytes ne h =
      let start : add64 block offset ≡ block + offset = omega (arith, on.inside, on.small) in
      rw
        (
          ne→== block 0 ne,
          good_offset offset fits,
          start,
          lseek_set-le s (block + offset) (omega (arith, on.inside)),
          lt→ltb (4096 - offset) bytes (omega arith),
        )
        (read-le (record s { at = block + offset }) (4096 - offset) (omega (arith, on.inside)))

  -- A write within the block.
  pub write_block-ok :
      (buff : List ℕ)
      → 0 < length buff
      → offset + length buff ≤ 4096
      → write_block buff block offset (length buff) s
        ≡ ret (pos (length buff)) (record s {
          byte = store s.byte (block + offset) buff;
          at = block + offset + length buff;
        })
  unfolding write_block
  write_block-ok buff p h =
      let start : add64 block offset ≡ block + offset = omega (arith, on.inside, on.small) in
      rw
        (
          good_offset offset fits,
          start,
          lseek_set-le s (block + offset) (omega (arith, on.inside)),
          le→ltb (4096 - offset) (length buff) (omega arith),
          take_all (length buff) buff (omega arith),
        )
        (write-le (record s { at = block + offset }) buff p (omega (arith, on.inside)))

  -- A write of the first bytes of a buffer.
  pub write_block-take :
      (buff : List ℕ) (bytes : ℕ)
      → 0 < bytes
      → bytes ≤ length buff
      → offset + bytes ≤ 4096
      → write_block buff block offset bytes s
        ≡ ret (pos bytes) (record s {
          byte = store s.byte (block + offset) (take bytes buff);
          at = block + offset + bytes;
        })
  unfolding write_block
  write_block-take buff bytes p enough h =
      let start : add64 block offset ≡ block + offset = omega (arith, on.inside, on.small) in
      let n : length (take bytes buff) ≡ bytes = omega (arith, length-take bytes buff) in
      rw
        (
          good_offset offset fits,
          start,
          lseek_set-le s (block + offset) (omega (arith, on.inside)),
          le→ltb (4096 - offset) bytes (omega arith),
        )
        (write-le (record s { at = block + offset }) (take bytes buff) (omega arith)
            (omega (arith, on.inside))
          ∙ ap
              (λ k. ret (pos k) (record s {
                byte = store s.byte (block + offset) (take bytes buff);
                at = block + offset + k;
              }))
              n)

  pub write_block-cut :
      (buff : List ℕ) (bytes : ℕ)
      → offset < 4096
      → bytes ≤ length buff
      → 4096 < offset + bytes
      → write_block buff block offset bytes s
        ≡ ret (pos (4096 - offset)) (record s {
          byte = store s.byte (block + offset) (take (4096 - offset) buff);
          at = block + offset + (4096 - offset);
        })
  unfolding write_block
  write_block-cut buff bytes lt enough h =
      let start : add64 block offset ≡ block + offset = omega (arith, on.inside, on.small) in
      let n : length (take (4096 - offset) buff) ≡ 4096 - offset =
        omega (arith, length-take (4096 - offset) buff) in
      rw
        (
          good_offset offset fits,
          start,
          lseek_set-le s (block + offset) (omega (arith, on.inside)),
          lt→ltb (4096 - offset) bytes (omega arith),
        )
        (write-le (record s { at = block + offset }) (take (4096 - offset) buff) (omega arith)
            (omega (arith, on.inside))
          ∙ ap
              (λ k. ret (pos k) (record s {
                byte = store s.byte (block + offset) (take (4096 - offset) buff);
                at = block + offset + k;
              }))
              n)

module _ (s : Fs) (block offset : ℕ) (on : IsOnDevice s block) (fits : offset + 8 ≤ 4096) where
  pub read_block_u64-ok :
      (old : ℕ)
      → block ≢ 0
      → read_block_u64 old block offset s
        ≡ ret (word s.byte (block + offset)) (record s { at = block + offset + 8 })
  unfolding read_block_u64 word
  read_block_u64-ok old ne = rw (
    read_block-ok s block offset on (omega arith) 8 ne fits,
    overlay_full (bytes_at s.byte (block + offset) 8) (le_bytes 8 old)
        (omega (arith, length-le_bytes 8 old, length-bytes_at s.byte (block + offset) 8)),
  )

  pub write_block_u64-ok :
      (v : ℕ)
      → write_block_u64 v block offset s
        ≡ ret (pos 8) (record s {
          byte = store s.byte (block + offset) (le_bytes 8 v);
          at = block + offset + 8;
        })
  unfolding write_block_u64
  write_block_u64-ok v =
      let n = length-le_bytes 8 v in
      ap (λ k. write_block (le_bytes 8 v) block offset k s) (sym n)
      ∙ write_block-ok s block offset on (omega arith) (le_bytes 8 v) (omega (arith, n))
          (omega (arith, n))
      ∙ ap
          (λ k. ret (pos k) (record s {
            byte = store s.byte (block + offset) (le_bytes 8 v);
            at = block + offset + k;
          }))
          n

-- On a block of the device `write_block` ends, and whatever its offset and length, changes no
-- byte outside the block and none before the offset.
pub write_block_confined :
    (s : Fs) (buff : List ℕ) (block offset bytes : ℕ)
    → IsOnDevice s block
    → Returns
        (λ r t. (x : ℕ) → (x < block + offset) ⊎ (block + 4096 ≤ x) → t.byte x ≡ s.byte x)
        (write_block buff block offset bytes s)
unfolding write_block
write_block_confined s buff block offset bytes on = elim (Bool-cases (bad_offset offset)) [
  | inl h ↦ rw h (λ x o. refl)
  | inr h ↦
      let fits : offset ≤ 4096 = ground (arith, h) in
      let start : add64 block offset ≡ block + offset = omega (arith, on.inside, on.small) in
      let here : Fs = record s { at = block + offset } in
      rw (h, start, lseek_set-le s (block + offset) (omega (arith, on.inside)))
        (elim (Bool-cases (ltb (4096 - offset) bytes)) [
          | inl cut ↦ rw cut (
              within here (take (4096 - offset) buff)
                (omega (arith, length-take (4096 - offset) buff)))
          | inr whole ↦
              rw whole
                (within here (take bytes buff) (ground (arith, whole, length-take bytes buff)))
        ])
]
  where
    within :
        (u : Fs) (bs : List ℕ)
        → u.at + length bs ≤ block + 4096
        → Returns
            (λ r t. (x : ℕ) → (x < u.at) ⊎ (block + 4096 ≤ x) → t.byte x ≡ u.byte x)
            (write bs u)
    within u bs h =
        Returns-mono (λ r t. (x : ℕ) → (x < u.at) ⊎ (u.at + length bs ≤ x) → t.byte x ≡ u.byte x) _
          (write bs u) (write_confined u bs) λ r t c x o. c x (omega arith)

-- At least one byte written by `write_block` within a block of the device is reported by its
-- number, and `read_block` reads back what was written without a change to the device.
pub read_block-write_block :
    (s : Fs) (buff : List ℕ) (block offset : ℕ)
    → IsOnDevice s block
    → block ≢ 0
    → 0 < length buff
    → offset + length buff ≤ 4096
    → Returns
        (λ r t.
          (r ≡ pos (length buff))
          × Returns
              (λ bs u. (bs ≡ buff) × (u.byte ≡ t.byte))
              (read_block block offset (length buff) t))
        (write_block buff block offset (length buff) s)
read_block-write_block s buff block offset on ne p h =
    rw (write_block-ok s block offset on (omega arith) buff p h) (
      refl,
      (let t : Fs = record s {
        byte = store s.byte (block + offset) buff;
        at = block + offset + length buff;
      } in
          let on' : IsOnDevice t block = record { inside = on.inside; small = on.small } in
          rw (read_block-ok t block offset on' (omega arith) (length buff) ne h)
            (bytes_at-store s.byte (block + offset) buff, refl)),
    )
