-- ===== src/FetchBlock.antt =====
-- disk.c: `fetch_block`, which reads a block of an inode by its index. The result is whether a
-- pointer is returned or NULL, and the buffer. The code computes with doubles, exactly as long as no
-- difference is negative; what a negative one gives as `uint64_t` C leaves undefined, and is the
-- parameter `negative` here.
pub mod Levels
use tyrant_fs.Base.{
  ℕ, zero, suc, ◌+◌, ◌-◌, ◌*◌, ◌/◌, Option, none, some, List, Bool, true, false, ltb, leb, ◌==◌,
  ◌||◌, if◌then◌else◌, get_or, length,
}
use tyrant_fs.Base.Bytes.{le_bytes, le_value, overlay}
use tyrant_fs.Base.Word.{sub64}
use tyrant_fs.Device.{Cmd, pure, ◌>>=◌}
use tyrant_fs.Block.{block_size, addr_length, addrs_per_block, read_block, read_block_u64}
use tyrant_fs.Inode.{Node, fetch_new}

-- `read_block(block, block_addr, 0, BLOCKSIZE); return block;`
unfoldable pub read_data : ℕ → List ℕ → Cmd (Bool × List ℕ)
read_data block_addr block = do
  bs ← read_block block_addr 0 block_size
  pure (true, overlay bs block)

-- The loop over the slots of the double indirect block, with the rounds left.
unfoldable pub fetch_dbl : ℕ → ℕ → ℕ → ℕ → List ℕ → Cmd (Bool × List ℕ)
fetch_dbl zero i dbl_indirect dbl_offset block = pure (false, block)
fetch_dbl (suc k) i dbl_indirect dbl_offset block =
    if ltb dbl_offset i
    then (do
      bs ← read_block dbl_indirect (sub64 (i / addrs_per_block) 1 * addr_length) addr_length
      let indir_blk = le_value (overlay bs (le_bytes 8 0))
      if indir_blk == 0 || length bs == 0 then pure (false, block) else do
        let offset = sub64 dbl_offset (i - addrs_per_block)
        block_addr ← read_block_u64 0 indir_blk (offset * addr_length)
        if block_addr == 0 then pure (false, block) else read_data block_addr block)
    else fetch_dbl k (i + addrs_per_block) dbl_indirect dbl_offset block

-- The inner loop of the triple level, over the slots of a double indirect block; `none` if it ends.
unfoldable pub fetch_inner : ℕ → ℕ → ℕ → ℕ → List ℕ → Cmd (Option (Bool × List ℕ))
fetch_inner zero j dbl_blk trpl_offset block = pure none
fetch_inner (suc k) j dbl_blk trpl_offset block =
    if ltb trpl_offset j
    then (do
      indir_blk ← read_block_u64 0 dbl_blk (sub64 (j / addrs_per_block) 1 * addr_length)
      if indir_blk == 0 then pure (some (false, block)) else do
        let offset = sub64 trpl_offset (j - addrs_per_block)
        block_addr ← read_block_u64 0 indir_blk (offset * addr_length)
        if block_addr == 0
            then pure (some (false, block))
            else do r ← read_data block_addr block; pure (some r))
    else fetch_inner k (j + addrs_per_block) dbl_blk trpl_offset block

-- `pow(BLOCKSIZE / ADDR_LENGTH, 2)`
abbrev pub addrs_squared : ℕ
addrs_squared = 262144

-- The outer loop of the triple level. `dbl_blk` keeps what was read.
unfoldable pub fetch_trpl : (ℕ → ℕ) → ℕ → ℕ → ℕ → ℕ → ℕ → List ℕ → Cmd (Bool × List ℕ)
fetch_trpl negative zero i trpl_indirect dbl_blk trpl_offset block = pure (false, block)
fetch_trpl negative (suc k) i trpl_indirect dbl_blk trpl_offset block =
    if ltb trpl_offset i
    then (do
      read ← read_block_u64 dbl_blk trpl_indirect ((i / addrs_squared - 1) * addr_length)
      if read == 0 then pure (false, block) else do
        let start = i - addrs_squared
        let offset =
            if leb start trpl_offset then trpl_offset - start else negative (start - trpl_offset)
        done ← fetch_inner addrs_per_block 0 read offset block
        elim done [
          | some r ↦ pure r
          | none ↦ fetch_trpl negative k (i + addrs_squared) trpl_indirect read offset block
        ])
    else fetch_trpl negative k (i + addrs_squared) trpl_indirect dbl_blk trpl_offset block

unfoldable pub fetch_block : (ℕ → ℕ) → ℕ → ℕ → List ℕ → Cmd (Bool × List ℕ)
fetch_block negative my_node block_no block = if my_node == 0 then pure (false, block) else do
  parent ← fetch_new my_node
  if leb parent.blocks block_no
      then pure (false, block)
      else if ltb block_no 12
      then read_data (get_or parent.direct_blocks block_no 0) block
      else if ltb block_no (12 + addrs_per_block)
      then (do
        block_addr ← read_block_u64 0 parent.indirect_blocks ((block_no - 12) * addr_length)
        if block_addr == 0 then pure (false, block) else read_data block_addr block)
      else if ltb block_no (12 + addrs_per_block + addrs_squared)
      then fetch_dbl addrs_per_block 0 parent.dbl_indirect (block_no - 12 - addrs_per_block) block
      else if ltb block_no (12 + addrs_per_block + addrs_squared + addrs_squared * addrs_per_block)
      then fetch_trpl negative addrs_per_block 0 parent.trpl_indirect 0
          (block_no - (12 + addrs_per_block + addrs_squared)) block
      else pure (false, block)
