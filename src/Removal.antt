-- ===== src/Removal.antt =====
-- tyrant_help.c: the functions that look up an entry of a directory by its inode, to remove it or
-- to give it a new name (`remove_link_from_parent`, `rename_from_parent`).
pub mod Search
pub mod Entry
pub mod Shrink
pub mod Link
pub mod Rename
use tyrant_fs.Base.{
  ℕ, zero, suc, ◌+◌, ◌-◌, ◌*◌, ◌%◌, Option, none, some, List, ltb, leb, ◌==◌, if◌then◌else◌, length,
  replicate,
}
use tyrant_fs.Base.Bytes.{overlay}
use tyrant_fs.Base.Word.{sub64}
use tyrant_fs.Base.Int.{ℤ, pos, negsuc, int_u64}
use tyrant_fs.Device.{Cmd, pure, gets, ◌>>=◌, ◌>>◌, time}
use tyrant_fs.Block.{
  block_size, addr_length, name_boundary, read_block, read_block_u64, write_block,
}
use tyrant_fs.Inode.{Node, fetch_new, commit_inode}
use tyrant_fs.FreeList.{free_block}
use tyrant_fs.BlockMap.{get_i_block}
use tyrant_fs.Directory.{name_length, entries_per_block, stale_bytes}

-- The inner loop over the entries of block `i`, with the rounds left: `act` runs at the first entry
-- with the address `cur_node`, and its result is returned. `child` keeps what was read. The offset
-- `j + i * BLOCKSIZE` is an `int`, and is compared as a `uint64_t`.
unfoldable pub entry_loop : (ℕ → ℕ → ℕ → Cmd ℤ) → ℕ → ℕ → ℕ → ℕ → ℕ → ℕ → ℕ → Cmd (Option ℤ × ℕ)
entry_loop act zero i j block size cur_node child = pure (none, child)
entry_loop act (suc k) i j block size cur_node child =
    if ltb (int_u64 (j + i * block_size)) size
    then (do
      found ← read_block_u64 child block (j + name_boundary - addr_length)
      if found == cur_node
          then (do r ← act i j block; pure (some r, found))
          else entry_loop act k i (j + name_boundary) block size cur_node found)
    else pure (none, child)

-- The outer loop over the blocks of the directory, with the rounds left. `i` is the `uint64_t` of the
-- code's `int`.
unfoldable pub blocks_loop : (ℕ → ℕ → ℕ → Cmd ℤ) → ℕ → ℕ → Node → ℕ → ℕ → Cmd ℤ
blocks_loop act zero i parent_node cur_node child = pure (negsuc 0)
blocks_loop act (suc k) i parent_node cur_node child =
    if leb parent_node.blocks i then pure (negsuc 0) else do
      block ← get_i_block parent_node i
      if block == 0 then pure (negsuc 0) else do
        (done, found) ← entry_loop act entries_per_block i 0 block parent_node.size cur_node child
        elim done [
          | some r ↦ pure r
          | none ↦ blocks_loop act k (int_u64 (i + 1)) parent_node cur_node found
        ]

-- The last entry of the directory moves to the entry at byte `j` of `block`.
unfoldable pub move_last : ℕ → ℕ → ℕ → ℕ → Cmd (Unit {0})
move_last last_block offset block j = do
  old ← stale_bytes name_boundary
  bs ← read_block last_block offset name_boundary
  _ ← write_block (overlay bs old) block j name_boundary
  _ ← write_block (replicate name_boundary 0) last_block offset name_boundary
  pure tt

-- The directory has one entry less; an empty last block is freed.
unfoldable pub shrink : Node → ℕ → ℕ → Cmd ℤ
shrink parent_node parent last_block = do
  let size = sub64 parent_node.size name_boundary
  blocks ←
      (if size % block_size == 0
        then (do
          fd ← gets (λ s. s.globals.drive)
          _ ← free_block fd last_block
          pure (sub64 parent_node.blocks 1))
        else pure parent_node.blocks)
  now ← time
  _ ←
      commit_inode
        (record parent_node { size = size; blocks = blocks; data_time = now; change_time = now })
        parent
  pure (pos 0)

-- The branch of `remove_link_from_parent` that has found the entry, at byte `j` of block `i`.
unfoldable pub remove_entry : Node → ℕ → ℕ → ℕ → ℕ → Cmd ℤ
remove_entry parent_node parent i j block = do
  _ ← write_block (replicate name_boundary 0) block j name_boundary
  last_block ← get_i_block parent_node (sub64 parent_node.blocks 1)
  if last_block == 0 then pure (negsuc 0) else do
    (if int_u64 (j + i * block_size) == sub64 parent_node.size name_boundary
        then pure tt
        else move_last last_block (sub64 (parent_node.size % block_size) name_boundary) block j)
    shrink parent_node parent last_block

unfoldable pub remove_link_from_parent : ℕ → ℕ → Cmd ℤ
remove_link_from_parent parent cur_node =
    if parent == 0 then pure (negsuc 0) else if cur_node == 0 then pure (negsuc 0) else do
      parent_node ← fetch_new parent
      blocks_loop (remove_entry parent_node parent) parent_node.blocks 0 parent_node cur_node 0

-- The branch of `rename_from_parent` that has found the entry.
unfoldable pub rename_entry : Node → ℕ → List ℕ → ℕ → ℕ → ℕ → Cmd ℤ
rename_entry parent_node parent new_name i j block = do
  _ ← write_block (replicate name_length 0) block j name_length
  let name_size = if leb name_length (length new_name) then name_length else length new_name
  _ ← write_block new_name block j name_size
  _ ← read_block block j name_length
  now ← time
  _ ← commit_inode (record parent_node { data_time = now; change_time = now }) parent
  pure (pos 0)

unfoldable pub rename_from_parent : ℕ → ℕ → List ℕ → Cmd ℤ
rename_from_parent parent cur_node new_name =
    if parent == 0 then pure (negsuc 0) else if cur_node == 0 then pure (negsuc 0) else do
      parent_node ← fetch_new parent
      blocks_loop (rename_entry parent_node parent new_name) parent_node.blocks 0 parent_node
          cur_node 0
