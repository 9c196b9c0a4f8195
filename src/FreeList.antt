-- ===== src/FreeList.antt =====
-- disk.c: the list of free blocks. The first word of the device is the address of the first list
-- block; a list block holds 512 addresses, of which the last leads to the next list block.
pub mod Exec
pub mod FreeExec
pub mod Chain
pub mod Slots
pub mod Head
pub mod Alloc
pub mod Put
pub mod Free
pub mod Refine
pub mod Client
pub mod Frame
use tyrant_fs.Base.{ℕ, zero, suc, ◌+◌, ◌-◌, List, Bool, ◌||◌, ◌==◌, if◌then◌else◌, replicate}
use tyrant_fs.Base.Word.{add64, sub64}
use tyrant_fs.Base.Int.{ℤ, pos, negsuc, is_neg}
use tyrant_fs.Device.{Cmd, pure, ◌>>=◌, ◌>>◌, lseek_set, lseek_back, write, read_u64, write_u64}
use tyrant_fs.Block.{block_size, addr_length, addrs_per_block}

-- The branch of the loop that has found an address, `free_block`, at byte `i` of the list block.
unfoldable pub take_slot : ℕ → ℕ → Cmd ℕ
take_slot i free_block = do
  lseek_back addr_length
  _ ← write_u64 0
  if i == block_size - addr_length
      then (do
        lseek_set 0
        first ← read_u64 free_block
        lseek_set 0
        _ ← write_u64 free_block
        pure first)
      else pure free_block

-- Behind the loop: the list block held no address, so it is the last free block itself.
unfoldable pub take_last : Cmd ℕ
take_last = do
  lseek_set 0
  free_block ← read_u64 0
  lseek_back addr_length
  _ ← write_u64 0
  pure free_block

-- The loop of `allocate_block`, with the rounds left and the byte offset `i`.
unfoldable pub alloc_scan : ℕ → ℕ → Cmd ℕ
alloc_scan zero i = take_last
alloc_scan (suc k) i = do
  free_block ← read_u64 0
  if free_block == 0 then alloc_scan k (i + addr_length) else take_slot i free_block

unfoldable pub allocate_block : Cmd ℕ
allocate_block = do
  lseek_set 0
  next_block ← read_u64 0
  if next_block == 0 then pure 0 else do lseek_set next_block; alloc_scan addrs_per_block 0

-- The branch of the loop that has found an empty slot at byte `i` of the list block.
unfoldable pub put_slot : ℕ → ℕ → Cmd ℤ
put_slot i block = do
  lseek_back addr_length
  _ ← write_u64 block
  if i == block_size - addr_length
      then (do lseek_set block; _ ← write (replicate block_size 0); pure (pos 0))
      else pure (pos 0)

-- Behind the loop: the list block is full, so the freed block becomes the first one.
unfoldable pub put_first : ℕ → ℕ → Cmd ℤ
put_first next_block block = do
  lseek_set block
  _ ← write (replicate block_size 0)
  lseek_set (sub64 (add64 block block_size) addr_length)
  _ ← write_u64 (sub64 next_block block_size)
  lseek_set 0
  _ ← write_u64 block
  pure (pos 0)

-- The loop of `free_block`, with the rounds left, the byte offset `i`, and the variables
-- `next_block` and `free_block` (what the last round read).
unfoldable pub free_scan : ℕ → ℕ → ℕ → ℕ → ℕ → Cmd ℤ
free_scan zero i next_block last block = put_first next_block block
free_scan (suc k) i next_block last block = do
  free_block ← read_u64 last
  if free_block == 0
      then put_slot i block
      else free_scan k (i + addr_length) (add64 next_block addr_length) free_block block

unfoldable pub free_block : ℤ → ℕ → Cmd ℤ
free_block fd block = if is_neg fd || block == 0 then pure (negsuc 0) else do
  lseek_set 0
  next_block ← read_u64 0
  if next_block == 0
      then (do
        lseek_set 0
        _ ← write_u64 block
        lseek_set block
        _ ← write (replicate block_size 0)
        pure (pos 0))
      else (do lseek_set next_block; free_scan addrs_per_block 0 next_block 0 block)
