-- ===== src/BlockMap.antt =====
-- tyrant_help.c: the blocks of an inode, by their index: 12 direct ones, then those behind the
-- indirect, the double indirect and the triple indirect block.
pub mod Offsets
pub mod Grow
pub mod Indirect
pub mod Address
use tyrant_fs.Base.{ℕ, ◌+◌, ◌-◌, ◌*◌, ◌/◌, ◌%◌, ◌^◌, ltb, leb, ◌==◌, if◌then◌else◌, get_or, set}
use tyrant_fs.Device.{Cmd, pure, gets, ◌>>=◌, stale_u64}
use tyrant_fs.Block.{addr_length, addrs_per_block, read_block_u64, write_block_u64}
use tyrant_fs.Inode.{Node, commit_inode}
use tyrant_fs.FreeList.{allocate_block, free_block}

-- `12 + BLOCKSIZE / ADDR_LENGTH`, and with `pow(BLOCKSIZE / ADDR_LENGTH, 2)`.
abbrev pub indirect_end : ℕ
indirect_end = 12 + addrs_per_block

abbrev pub dbl_end : ℕ
dbl_end = 12 + addrs_per_block + addrs_per_block * addrs_per_block

-- The byte offset of block `i`'s address in the indirect block.
abbrev pub indirect_offset : ℕ → ℕ
indirect_offset i = (i - 12) * addr_length

-- The offsets in the double indirect block and in the indirect block behind it.
abbrev pub dbl_offset : ℕ → ℕ
dbl_offset i = (i - 12 - addrs_per_block) / addrs_per_block * addr_length

abbrev pub dbl_indirect_offset : ℕ → ℕ
dbl_indirect_offset i = (i - 12 - addrs_per_block) % addrs_per_block * addr_length

-- The index past those of the double indirect block.
abbrev pub trpl_index : ℕ → ℕ
trpl_index i = i - 12 - addrs_per_block - addrs_per_block * addrs_per_block

abbrev pub trpl_offset : ℕ → ℕ
trpl_offset i = trpl_index i / (addrs_per_block * addrs_per_block) * addr_length % 2 ^ 64

abbrev pub trpl_dbl_offset : ℕ → ℕ
trpl_dbl_offset i =
    trpl_index i % (addrs_per_block * addrs_per_block) / addrs_per_block * addr_length

abbrev pub trpl_indirect_offset : ℕ → ℕ
trpl_indirect_offset i =
    trpl_index i % (addrs_per_block * addrs_per_block) % addrs_per_block * addr_length

unfoldable pub get_i_block : Node → ℕ → Cmd ℕ
get_i_block cur_node i =
    if cur_node.blocks == 0
    then pure 0
    else if leb cur_node.blocks i
    then pure 0
    else if ltb i 12
    then pure (get_or cur_node.direct_blocks i 0)
    else if ltb i indirect_end
    then (if cur_node.indirect_blocks == 0 then pure 0 else do
      cur_blk ← stale_u64
      read_block_u64 cur_blk cur_node.indirect_blocks (indirect_offset i))
    else if ltb i dbl_end
    then (if cur_node.dbl_indirect == 0 then pure 0 else do
      cur_blk ← stale_u64
      indir_blk ← read_block_u64 0 cur_node.dbl_indirect (dbl_offset i)
      read_block_u64 cur_blk indir_blk (dbl_indirect_offset i))
    else (if cur_node.trpl_indirect == 0 then pure 0 else do
      cur_blk ← stale_u64
      dbl_blk ← read_block_u64 0 cur_node.trpl_indirect (trpl_offset i)
      indir_blk ← read_block_u64 0 dbl_blk (trpl_dbl_offset i)
      read_block_u64 cur_blk indir_blk (trpl_indirect_offset i))

-- `free_block(drive, block); return 0;`
unfoldable pub give_up : ℕ → Node → Cmd (ℕ × Node)
give_up block parent = do
  fd ← gets (λ s. s.globals.drive)
  _ ← free_block fd block
  pure (0, parent)

-- The end of each branch: one block more, and the inode is committed.
unfoldable pub add_commit : ℕ → Node → ℕ → Cmd (ℕ × Node)
add_commit block parent parent_loc = do
  let grown = record parent { blocks = parent.blocks + 1 }
  _ ← commit_inode grown parent_loc
  pure (block, grown)

-- The address that a slot of an index block holds; a zero is replaced by a new block. The result is
-- 0 if there is none.
unfoldable pub index_slot : ℕ → ℕ → Node → ℕ → Cmd ℕ
index_slot table offset parent parent_loc = do
  found ← read_block_u64 0 table offset
  if found == 0
      then (do
        new ← allocate_block
        if new == 0 then pure 0 else do
          _ ← write_block_u64 new table offset
          _ ← commit_inode parent parent_loc
          pure new)
      else pure found

-- Block `block` becomes block `i` of the inode, through the indirect block.
unfoldable pub add_indirect : ℕ → ℕ → Node → ℕ → Cmd (ℕ × Node)
add_indirect i block parent parent_loc = do
  _ ← write_block_u64 block parent.indirect_blocks (indirect_offset i)
  add_commit block parent parent_loc

unfoldable pub add_dbl : ℕ → ℕ → Node → ℕ → Cmd (ℕ × Node)
add_dbl i block parent parent_loc = do
  indir_blk ← index_slot parent.dbl_indirect (dbl_offset i) parent parent_loc
  if indir_blk == 0 then give_up block parent else do
    _ ← write_block_u64 block indir_blk (dbl_indirect_offset i)
    add_commit block parent parent_loc

unfoldable pub add_trpl : ℕ → ℕ → Node → ℕ → Cmd (ℕ × Node)
add_trpl i block parent parent_loc = do
  dbl_blk ← index_slot parent.trpl_indirect (trpl_offset i) parent parent_loc
  if dbl_blk == 0 then give_up block parent else do
    indir_blk ← index_slot dbl_blk (trpl_dbl_offset i) parent parent_loc
    if indir_blk == 0 then give_up block parent else do
      _ ← write_block_u64 block indir_blk (trpl_indirect_offset i)
      add_commit block parent parent_loc

-- `add_block_to_node(&parent, parent_loc)`: the new block, or 0, and the inode after it.
unfoldable pub add_block_to_node : Node → ℕ → Cmd (ℕ × Node)
add_block_to_node parent parent_loc = if parent_loc == 0 then pure (0, parent) else do
  block ← allocate_block
  let i = parent.blocks
  if block == 0
      then pure (0, parent)
      else if i == 2 ^ 64 - 1
      then give_up block parent
      else if ltb i 12
      then add_commit block (record parent { direct_blocks = set parent.direct_blocks i block })
          parent_loc
      else if ltb i indirect_end
      then (if parent.indirect_blocks == 0
          then (do
            new ← allocate_block
            if new == 0 then give_up block parent else do
              let with_table = record parent { indirect_blocks = new }
              _ ← commit_inode with_table parent_loc
              add_indirect i block with_table parent_loc)
          else add_indirect i block parent parent_loc)
      else if ltb i dbl_end
      then (if parent.dbl_indirect == 0
          then (do
            new ← allocate_block
            if new == 0 then give_up block parent else do
              let with_table = record parent { dbl_indirect = new }
              _ ← commit_inode with_table parent_loc
              add_dbl i block with_table parent_loc)
          else add_dbl i block parent parent_loc)
      else (if parent.trpl_indirect == 0
          then (do
            new ← allocate_block
            if new == 0 then give_up block parent else do
              let with_table = record parent { trpl_indirect = new }
              _ ← commit_inode with_table parent_loc
              add_trpl i block with_table parent_loc)
          else add_trpl i block parent parent_loc)
