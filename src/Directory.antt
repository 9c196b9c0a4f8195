-- ===== src/Directory.antt =====
-- tyrant_help.c: directory entries of 256 bytes, a name and the address of its inode: adding,
-- finding, removing and renaming them. A C string is the list of its bytes before the terminator.
pub mod Entries
pub mod NewEntry
pub mod Add
pub mod Lookup
use tyrant_fs.Base.{
  ℕ, zero, suc, ◌+◌, ◌-◌, ◌%◌, List, [], ◌∷◌, ◌++◌, Bool, true, false, ◌&&◌, ◌||◌, ◌==◌,
  if◌then◌else◌, take, drop, replicate,
}
use tyrant_fs.Base.Bytes.{bytes_at, overlay, le_value}
use tyrant_fs.Base.Word.{add64, sub64, add32}
use tyrant_fs.Base.Int.{ℤ, pos, negsuc}
use tyrant_fs.Device.{Cmd, pure, ◌>>=◌, ◌>>◌, lseek_set, read, time}
use tyrant_fs.Device.Command.{ret}
use tyrant_fs.Block.{
  block_size, addr_length, name_boundary, addrs_per_block, read_block, write_block, write_block_u64,
}
use tyrant_fs.Inode.{Node, fetch_new, commit_inode}
use tyrant_fs.BlockMap.{get_i_block, add_block_to_node}

-- `NAME_BOUNDARY - ADDR_LENGTH`
abbrev pub name_length : ℕ
name_length = 248

-- `BLOCKSIZE / NAME_BOUNDARY`
abbrev pub entries_per_block : ℕ
entries_per_block = 16

-- The C string at the start of a buffer.
unfoldable pub c_string : List ℕ → List ℕ
c_string [] = []
c_string (c ∷ cs) = if c == 0 then [] else c ∷ c_string cs

-- `strcmp(a, b) == 0`
unfoldable pub same_string : List ℕ → List ℕ → Bool
same_string [] [] = true
same_string (a ∷ xs) (b ∷ ys) = a == b && same_string xs ys
same_string _ _ = false

-- `n` bytes of an uninitialised buffer.
unfoldable pub stale_bytes : ℕ → Cmd (List ℕ)
stale_bytes n s = ret (bytes_at s.env.stale 0 n) s

-- The branch of the loop of `add_addr` that has found an empty entry at byte `i`.
unfoldable pub fill_entry : ℕ → ℕ → ℕ → ℕ → List ℕ → Node → Node → Cmd ℤ
fill_entry i parent block addr temp parent_node addr_node = do
  _ ← write_block temp block i name_length
  _ ← write_block_u64 addr block (i + name_boundary - addr_length)
  now ← time
  let new_parent = record parent_node {
    size = add64 parent_node.size name_boundary;
    data_time = now;
    change_time = now;
  }
  let new_addr = record addr_node { links = add32 addr_node.links 1; change_time = now }
  _ ← commit_inode new_parent parent
  _ ← commit_inode new_addr addr
  pure (pos 0)

-- The loop of `add_addr`, with the rounds left and `empty_space` as the last round left it.
unfoldable pub add_addr_loop : ℕ → ℕ → ℕ → ℕ → ℕ → ℕ → List ℕ → Node → Node → Cmd ℤ
add_addr_loop zero i empty_space parent block addr temp parent_node addr_node = pure (negsuc 0)
add_addr_loop (suc k) i empty_space parent block addr temp parent_node addr_node = do
  bs ← read_block block i 1
  let found = le_value (overlay bs (empty_space ∷ []))
  if found == 0
      then fill_entry i parent block addr temp parent_node addr_node
      else add_addr_loop k (i + name_boundary) found parent block addr temp parent_node addr_node

-- `temp` is an uninitialised buffer that holds the name after `strcpy`; longer names than fit are
-- cut here, where the C code writes behind the buffer.
unfoldable pub add_addr : ℕ → ℕ → ℕ → List ℕ → Cmd ℤ
add_addr parent block addr name =
    if block == 0 || (parent == 0 || addr == 0) then pure (negsuc 0) else do
      temp ← stale_bytes name_length
      parent_node ← fetch_new parent
      addr_node ← fetch_new addr
      add_addr_loop entries_per_block 0 0 parent block addr
          (take name_length (overlay (name ++ 0 ∷ []) temp)) parent_node addr_node

unfoldable pub add_to_directory : ℕ → ℕ → List ℕ → Cmd ℤ
add_to_directory parent child name = if parent == 0 || child == 0 then pure (negsuc 0) else do
  parent_node ← fetch_new parent
  _ ← fetch_new child
  if parent_node.size % block_size == 0
      then (do
        (block, _) ← add_block_to_node parent_node parent
        if block == 0 then pure (negsuc 0) else do
          _ ← write_block (replicate block_size 0) block 0 block_size
          add_addr parent block child name)
      else (do
        block ← get_i_block parent_node (sub64 parent_node.blocks 1)
        add_addr parent block child name)

-- The loop of `check_block` over the entries left of a directory block. `last` is the byte of
-- `tmp_name` behind the name, which is not initialised.
unfoldable pub check_entries : ℕ → ℕ → List ℕ → List ℕ → ℕ
check_entries last zero block name = 0
check_entries last (suc k) block name =
    let rest = check_entries last k (drop name_boundary block) name in
    if same_string (c_string (take name_length block ++ last ∷ [])) name
    then le_value (take addr_length (drop name_length block))
    else rest

unfoldable pub check_block : ℕ → List ℕ → List ℕ → ℕ
check_block last block name = check_entries last entries_per_block block name

-- Byte 248 of an uninitialised buffer.
unfoldable pub stale_byte : Cmd ℕ
stale_byte s = ret (s.env.stale name_length) s

-- `lseek(drive, block_addr, SEEK_SET); read(drive, data_block, BLOCKSIZE);`
unfoldable pub load_block : ℕ → List ℕ → Cmd (List ℕ)
load_block block_addr data_block = do
  lseek_set block_addr
  bs ← read block_size
  pure (overlay bs data_block)

-- The loop of `check_indirect_blk` over the addresses left in the block; the result is the inode and
-- the new `*block_count`.
unfoldable pub check_indirect_loop : ℕ → List ℕ → List ℕ → ℕ → List ℕ → Cmd (ℕ × ℕ)
check_indirect_loop zero block name block_count data_block = pure (0, block_count)
check_indirect_loop (suc k) block name block_count data_block =
    if block_count == 0 then pure (0, 0) else do
      loaded ← load_block (le_value (take addr_length block)) data_block
      last ← stale_byte
      let tmp_node = check_block last loaded name
      if tmp_node == 0
          then check_indirect_loop k (drop addr_length block) name (block_count - 1) loaded
          else pure (tmp_node, block_count - 1)

unfoldable pub check_indirect_blk : List ℕ → List ℕ → ℕ → Cmd (ℕ × ℕ)
check_indirect_blk block name block_count = do
  data_block ← stale_bytes block_size
  check_indirect_loop addrs_per_block block name block_count data_block

-- The loops of `check_dbl_indirect_blk` and `check_trpl_indirect_blk`, which call `check` on each
-- block that they load.
unfoldable pub check_level :
    (List ℕ → List ℕ → ℕ → Cmd (ℕ × ℕ)) → ℕ → List ℕ → List ℕ → ℕ → List ℕ → Cmd (ℕ × ℕ)
check_level check zero block name block_count data_block = pure (0, block_count)
check_level check (suc k) block name block_count data_block =
    if block_count == 0 then pure (0, 0) else do
      loaded ← load_block (le_value (take addr_length block)) data_block
      (tmp_node, left) ← check loaded name block_count
      if tmp_node == 0
          then check_level check k (drop addr_length block) name left loaded
          else pure (tmp_node, left)

unfoldable pub check_dbl_indirect_blk : List ℕ → List ℕ → ℕ → Cmd (ℕ × ℕ)
check_dbl_indirect_blk block name block_count = do
  data_block ← stale_bytes block_size
  check_level check_indirect_blk addrs_per_block block name block_count data_block

unfoldable pub check_trpl_indirect_blk : List ℕ → List ℕ → ℕ → Cmd (ℕ × ℕ)
check_trpl_indirect_blk block name block_count = do
  data_block ← stale_bytes block_size
  check_level check_dbl_indirect_blk addrs_per_block block name block_count data_block
