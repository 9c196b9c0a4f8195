-- ===== src/Block.antt =====
-- disk.h and disk.c: the constants of the layout, `read_block` and `write_block`.
-- A buffer is the list of its bytes; no caller passes a null one. An `off_t` is given as the
-- `uint64_t` of the same bits, so a negative one is at least 2 ^ 63.
pub mod Io
use tyrant_fs.Base.{ℕ, ◌-◌, ◌^◌, List, Bool, ◌||◌, ltb, leb, ◌==◌, if◌then◌else◌, [], take}
use tyrant_fs.Base.Bytes.{overlay, le_bytes, le_value}
use tyrant_fs.Base.Word.{add64}
use tyrant_fs.Base.Int.{ℤ, pos}
use tyrant_fs.Device.{Cmd, pure, ◌>>=◌, ◌>>◌, lseek_set, read, write}

abbrev pub block_size : ℕ
block_size = 4096

abbrev pub addr_length : ℕ
addr_length = 8

-- The size of a directory entry: a name of at most 248 bytes and an inode's address.
abbrev pub name_boundary : ℕ
name_boundary = 256

-- `BLOCKSIZE / ADDR_LENGTH`
abbrev pub addrs_per_block : ℕ
addrs_per_block = 512

-- `offset > BLOCKSIZE || offset < 0`
abbrev pub bad_offset : ℕ → Bool
bad_offset offset = ltb block_size offset || leb (2 ^ 63) offset

-- The bytes that go into the buffer; the function returns their number.
unfoldable pub read_block : ℕ → ℕ → ℕ → Cmd (List ℕ)
read_block block offset bytes =
    if block == 0 then pure [] else if bad_offset offset then pure [] else do
      lseek_set (add64 block offset)
      let bytes_avail = block_size - offset
      if ltb bytes_avail bytes then read bytes_avail else read bytes

-- `read_block(&x, block, offset, ADDR_LENGTH)` for a `uint64_t` that holds `old`.
unfoldable pub read_block_u64 : ℕ → ℕ → ℕ → Cmd ℕ
read_block_u64 old block offset = do
  bs ← read_block block offset addr_length
  pure (le_value (overlay bs (le_bytes 8 old)))

unfoldable pub write_block : List ℕ → ℕ → ℕ → ℕ → Cmd ℤ
write_block buff block offset bytes = if bad_offset offset then pure (pos 0) else do
  lseek_set (add64 block offset)
  let bytes_avail = block_size - offset
  if ltb bytes_avail bytes then write (take bytes_avail buff) else write (take bytes buff)

-- `write_block(&v, block, offset, ADDR_LENGTH)`
unfoldable pub write_block_u64 : ℕ → ℕ → ℕ → Cmd ℤ
write_block_u64 v block offset = write_block (le_bytes 8 v) block offset addr_length
