-- ===== src/Handlers/Dots.antt =====
-- What `tfs_mkdir` writes into the block of a new directory.
use tyrant_fs.Base.{ℕ, ◌+◌, ◌≡◌, ◌<◌, ◌^◌, ◌-◌, refl, ap, ◌∙◌, [], ◌∷◌, arith}
use tyrant_fs.Base.Bytes.{Memory, bytes_at, store, word, le_bytes, length-le_bytes}
use tyrant_fs.Base.Store.{
  bytes_at-store, bytes_at-store_below, word-store_self, word-store_below, word-store_above,
}
use tyrant_fs.Base.Int.{pos}
use tyrant_fs.Device.{Fs}
use tyrant_fs.Device.Command.{ret, Returns}
use tyrant_fs.Block.{write_block, write_block_u64}
use tyrant_fs.Block.Io.{IsOnDevice, write_block-ok, write_block_u64-ok}
use tyrant_fs.Handlers.{write_dots}

-- An offset that is negative as an `off_t`: nothing is written.
refused : (s : Fs) (v block : ℕ) → write_block_u64 v block (2 ^ 64 - 3584) s ≡ ret (pos 0) s
unfolding write_block_u64 write_block
refused s v block = refl

-- On a block of the device, `write_dots` writes the entry ".", with the directory's own address
-- of 64 bits, and the name "..", but not the parent's address: the eight bytes of that entry's
-- address stay as they were.
pub write_dots_lem :
    (s : Fs) (block dir parent : ℕ)
    → IsOnDevice s block
    → dir < 2 ^ 64
    → Returns
        (λ r t.
          (bytes_at t.byte block 2 ≡ b'.' ∷ 0 ∷ [])
          × (word t.byte (block + 248) ≡ dir)
          × (bytes_at t.byte (block + 256) 3 ≡ b'.' ∷ b'.' ∷ 0 ∷ [])
          × (word t.byte (block + 504) ≡ word s.byte (block + 504)))
        (write_dots block dir parent s)
unfolding write_dots
write_dots_lem s block dir parent on h =
    let d1 = b'.' ∷ 0 ∷ [] in
    let d2 = b'.' ∷ b'.' ∷ 0 ∷ [] in
    let n = length-le_bytes 8 dir in
    let f1 : Memory = store s.byte (block + 0) d1 in
    let f2 : Memory = store f1 (block + 248) (le_bytes 8 dir) in
    let s1 : Fs = record s { byte = f1; at = block + 0 + 2 } in
    let s2 : Fs = record s1 { byte = f2; at = block + 248 + 8 } in
    let s3 : Fs = record s2 { byte = store f2 (block + 256) d2; at = block + 256 + 3 } in
    rw
      (
        write_block-ok s block 0 on (omega arith) d1 (omega arith) (omega arith),
        write_block_u64-ok s1 block 248 (record { inside = on.inside; small = on.small })
            (omega arith) dir,
        write_block-ok s2 block 256 (record { inside = on.inside; small = on.small }) (omega arith)
            d2 (omega arith) (omega arith),
        refused s3 parent block,
      )
      (
        bytes_at-store_below f2 (block + 256) d2 block 2 (omega arith)
            ∙ bytes_at-store_below f1 (block + 248) (le_bytes 8 dir) block 2 (omega arith)
            ∙ ap (λ b. bytes_at f1 b 2) (omega arith)
            ∙ bytes_at-store s.byte (block + 0) d1,
        word-store_below f2 (block + 256) d2 (block + 248) (omega arith)
            ∙ word-store_self f1 (block + 248) dir h,
        bytes_at-store f2 (block + 256) d2,
        word-store_above f2 (block + 256) d2 (block + 504) (omega arith)
            ∙ word-store_above f1 (block + 248) (le_bytes 8 dir) (block + 504) (omega (arith, n))
            ∙ word-store_above s.byte (block + 0) d1 (block + 504) (omega arith),
      )
