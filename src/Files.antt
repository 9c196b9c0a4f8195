-- ===== src/Files.antt =====
-- tyrant.c: the contents of files (`tfs_read`, `tfs_write`, `tfs_truncate`). Offsets and lengths are
-- the `uint64_t` of the same bits.
pub mod Contents
pub mod Read
pub mod Written
pub mod Write
pub mod Placed
pub mod Overwrite
pub mod Nodes
pub mod Small
pub mod Origin
pub mod Growth
pub mod Sparing
pub mod Extend
pub mod Shorten
pub mod Truncate
pub mod RoundTrip
pub mod Isolation
pub mod ByPath
use tyrant_fs.Base.{
  ℕ, zero, suc, ◌+◌, ◌-◌, ◌/◌, ◌%◌, List, [], ◌++◌, ltb, leb, ◌==◌, if◌then◌else◌, length, drop,
}
use tyrant_fs.Base.Word.{add64, sub64, add32}
use tyrant_fs.Base.Int.{ℤ, pos, negsuc, to_u64, to_int}
use tyrant_fs.Device.{Cmd, pure, ◌>>=◌, time}
use tyrant_fs.Device.Command.{out_of_fuel}
use tyrant_fs.Block.{block_size, read_block, write_block}
use tyrant_fs.Inode.{Node, fetch_new, commit_inode}
use tyrant_fs.BlockMap.{get_i_block, add_block_to_node}
use tyrant_fs.FilePath.{find_path_node}
use tyrant_fs.Unlink.{enoent, release}

-- The loop of `tfs_read`, with the blocks left: the bytes that go into the buffer from here on.
unfoldable pub read_loop : ℕ → Node → ℕ → ℕ → ℕ → Cmd (List ℕ)
read_loop zero cur_node blocks loc byte_counter = pure []
read_loop (suc k) cur_node blocks loc byte_counter = if byte_counter == 0 then pure [] else do
  block ← get_i_block cur_node blocks
  bs ← read_block block loc byte_counter
  rest ← read_loop k cur_node (blocks + 1) 0 (sub64 byte_counter (length bs))
  pure (bs ++ rest)

-- The part of `tfs_read` behind the lookup: the bytes read, whose number is the result, as an `int`.
unfoldable pub read_node : ℕ → Node → ℕ → ℕ → Cmd (ℤ × List ℕ)
read_node cur cur_node size offset = if leb cur_node.size offset then pure (negsuc 0, []) else do
  now ← time
  let node = record cur_node { access_time = now }
  _ ← commit_inode node cur
  let counter = if ltb node.size (add64 offset size) then node.size - offset else size
  let first = offset / block_size
  bs ← read_loop (node.blocks - first) node first (offset % block_size) counter
  pure (to_int (length bs), bs)

unfoldable pub tfs_read : List ℕ → ℕ → ℕ → Cmd (ℤ × List ℕ)
tfs_read path size offset = do
  cur ← find_path_node path
  if cur == 0
      then pure (enoent, [])
      else do cur_node ← fetch_new cur; read_node cur cur_node size offset

-- The loop of `tfs_write` that adds blocks, with the rounds left.
unfoldable pub grow : ℕ → ℕ → Node → Cmd Node
grow zero cur cur_node = pure cur_node
grow (suc k) cur cur_node = do
  (block, next_node) ← add_block_to_node cur_node cur
  if block == 0 then pure next_node else grow k cur next_node

-- The loop of `tfs_write` that writes, with the blocks left; the result is `bytes`.
unfoldable pub write_loop : ℕ → Node → List ℕ → ℕ → ℕ → ℕ → ℕ → Cmd ℕ
write_loop zero cur_node buff bytes blocks loc byte_counter = pure bytes
write_loop (suc k) cur_node buff bytes blocks loc byte_counter =
    if byte_counter == 0 then pure bytes else do
      block ← get_i_block cur_node blocks
      written ← write_block (drop bytes buff) block loc byte_counter
      write_loop k cur_node buff (add64 bytes (to_u64 written)) (blocks + 1) 0
          (sub64 byte_counter (to_u64 written))

-- `(size + offset) / BLOCKSIZE`, rounded up.
abbrev pub blocks_for : ℕ → ℕ
blocks_for end = end / block_size + (if end % block_size == 0 then 0 else 1)

-- The part of `tfs_write` behind the lookup.
unfoldable pub write_node : ℕ → Node → List ℕ → ℕ → ℕ → Cmd ℤ
write_node cur cur_node buff size offset = do
  now ← time
  let stamped = record cur_node { data_time = now; change_time = now }
  _ ← commit_inode stamped cur
  let end = add64 size offset
  grown ←
      (if ltb stamped.size end
        then grow (blocks_for end - stamped.blocks) cur stamped
        else pure stamped)
  let first = offset / block_size
  bytes ← write_loop (grown.blocks - first) grown buff 0 first (offset % block_size) size
  let reached = add64 offset bytes
  _ ←
      commit_inode
        (record grown { size = if ltb reached cur_node.size then cur_node.size else reached }) cur
  pure (to_int bytes)

unfoldable pub tfs_write : List ℕ → List ℕ → ℕ → ℕ → Cmd ℤ
tfs_write path buff size offset = do
  cur ← find_path_node path
  if cur == 0
      then pure enoent
      else do cur_node ← fetch_new cur; write_node cur cur_node buff size offset

-- The loop of `tfs_truncate`, on fuel: `i` is a `uint32_t`, and `blocks` goes down in each round.
unfoldable pub truncate_loop : ℕ → ℕ → ℕ → Node → Cmd Node
truncate_loop zero i total_blocks cur_node = λ _. out_of_fuel
truncate_loop (suc k) i total_blocks cur_node =
    if ltb i total_blocks
    then (do
      block ← get_i_block cur_node i
      _ ← release block
      truncate_loop k (add32 i 1) total_blocks
          (record cur_node { blocks = sub64 cur_node.blocks 1 }))
    else pure cur_node

-- The part of `tfs_truncate` behind the lookup.
unfoldable pub truncate_node : ℕ → Node → ℕ → Cmd ℤ
truncate_node cur cur_node length = if leb cur_node.size length then pure (pos 0) else do
  _ ← get_i_block cur_node (length / block_size)
  cut ← truncate_loop (suc cur_node.blocks) (add32 (length / block_size) 1) cur_node.blocks cur_node
  now ← time
  _ ← commit_inode (record cut { change_time = now; data_time = now; size = length }) cur
  pure (pos 0)

unfoldable pub tfs_truncate : List ℕ → ℕ → Cmd ℤ
tfs_truncate path length = do
  cur ← find_path_node path
  if cur == 0 then pure enoent else do cur_node ← fetch_new cur; truncate_node cur cur_node length
