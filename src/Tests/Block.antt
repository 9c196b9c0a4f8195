-- ===== src/Tests/Block.antt =====
-- Reads and writes of blocks of the small device.
use tyrant_fs.Base.{ℕ, ◌≤◌, ◌<◌, ◌≡◌, ◌⊎◌, [], ◌∷◌, arith}
use tyrant_fs.Base.Int.{pos}
use tyrant_fs.Device.Command.{Returns}
use tyrant_fs.Block.{read_block, write_block}
use tyrant_fs.Block.Io.{IsOnDevice, write_block_confined, read_block-write_block}
use tyrant_fs.Tests.{small_fs}

abbrev on_device : IsOnDevice small_fs 16384
on_device = record { inside = omega arith; small = omega arith }

write_block_confined_example :
    Returns
      (λ r t. (x : ℕ) → (x < 20479) ⊎ (20480 ≤ x) → t.byte x ≡ small_fs.byte x)
      (write_block (1 ∷ 2 ∷ 3 ∷ []) 16384 4095 3 small_fs)
write_block_confined_example = write_block_confined small_fs (1 ∷ 2 ∷ 3 ∷ []) 16384 4095 3 on_device

read_block-write_block_example :
    Returns
      (λ r t.
        (r ≡ pos 3)
        × Returns (λ bs u. (bs ≡ 1 ∷ 2 ∷ 3 ∷ []) × (u.byte ≡ t.byte)) (read_block 16384 100 3 t))
      (write_block (1 ∷ 2 ∷ 3 ∷ []) 16384 100 3 small_fs)
read_block-write_block_example =
    read_block-write_block small_fs (1 ∷ 2 ∷ 3 ∷ []) 16384 100 on_device (omega arith) (omega arith)
      (omega arith)
