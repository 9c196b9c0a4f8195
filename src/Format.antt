-- ===== src/Format.antt =====
-- disk.c: the division of the device into superblock, inodes and data (`tfs_disk_info`), and the
-- formatting of a device (`tfs_mkfs`).
pub mod Geometry
pub mod Slots
pub mod Lists
pub mod Layout
pub mod Overrun
pub mod RootBlock
pub mod RootInode
pub mod Root
pub mod Made
use tyrant_fs.Base.{
  ℕ, zero, suc, ◌+◌, ◌-◌, ◌*◌, ◌/◌, ◌%◌, ◌^◌, [], ◌∷◌, ltb, leb, if◌then◌else◌, replicate, set,
}
use tyrant_fs.Base.Bytes.{overlay}
use tyrant_fs.Base.Word.{add64, sub64}
use tyrant_fs.Base.Int.{ℤ, pos, negsuc, is_neg}
use tyrant_fs.Device.{
  Cmd, pure, gets, ◌>>=◌, ◌>>◌, lseek_set, lseek_back, read, write, write_u64, time,
}
use tyrant_fs.Device.Command.{ret, out_of_fuel}
use tyrant_fs.Block.{
  block_size, addr_length, name_boundary, addrs_per_block, read_block, write_block, write_block_u64,
}
use tyrant_fs.Inode.{
  Node, node_size, encode, decode, stale_node, allocate_inode, commit_inode, fetch_inode,
}
use tyrant_fs.FreeList.{allocate_block}

-- The assignments to the global variables, with `ioctl(fd, BLKGETSIZE64, &drivesize)`.
unfoldable pub set_geometry : ℤ → Cmd (Unit {0})
set_geometry fd s =
    let num = s.size / block_size in
    let inodes = num / 65 in
    ret tt (record s {
      globals = record (s.globals) {
        drive = fd;
        drivesize = s.size;
        num_blocks = num;
        inode_blocks = inodes;
        data_blocks = sub64 (inodes * 64 % 2 ^ 64) 1;
        inode_byte_boundary = (inodes + 1) * block_size % 2 ^ 64;
      };
    })

unfoldable pub tfs_disk_info : ℤ → Cmd ℤ
tfs_disk_info fd = if is_neg fd then pure (negsuc 0) else do set_geometry fd; pure (pos 0)

-- `n` blocks of zeros, one behind the other.
unfoldable pub clear_blocks : ℕ → Cmd (Unit {0})
clear_blocks zero = pure tt
clear_blocks (suc n) = do _ ← write (replicate block_size 0); clear_blocks n

-- The inner loop, with the rounds left; the result is `addr_counter` and `block_ptr`.
unfoldable pub fill_slots : ℕ → ℕ → ℕ → Cmd (ℕ × ℕ)
fill_slots zero addr_counter block_ptr = pure (addr_counter, block_ptr)
fill_slots (suc k) addr_counter block_ptr = do
  data_blocks ← gets (λ s. s.globals.data_blocks)
  if leb data_blocks addr_counter then pure (addr_counter, block_ptr) else (do
    _ ← write_u64 block_ptr
    fill_slots k (add64 addr_counter 1) (add64 block_ptr block_size))

-- The outer loop, on fuel: each round fills one list block, at `free_blockptr`.
unfoldable pub fill_lists : ℕ → ℕ → ℕ → Cmd (Unit {0})
fill_lists zero addr_counter free_blockptr = λ _. out_of_fuel
fill_lists (suc k) addr_counter free_blockptr = do
  g ← gets (λ s. s.globals)
  if ltb addr_counter g.data_blocks
      then (do
        lseek_set free_blockptr
        _ ← write (replicate block_size 0)
        lseek_back block_size
        let start = add64 g.inode_byte_boundary (addr_counter * block_size % 2 ^ 64)
        (addr_counter, block_ptr) ← fill_slots addrs_per_block addr_counter (add64 start block_size)
        fill_lists k addr_counter (sub64 block_ptr block_size))
      else pure tt

-- `S_IFDIR | S_IRUSR | S_IRGRP | S_IROTH`
abbrev pub root_mode : ℕ
root_mode = 0x4124

-- The block of the root directory: the entries "." and "..".
unfoldable pub root_entries : ℕ → ℕ → Cmd (Unit {0})
root_entries root block = do
  _ ← write_block (replicate block_size 0) block 0 block_size
  _ ← write_block (b'.' ∷ 0 ∷ []) block 0 2
  _ ← write_block_u64 root block (name_boundary - addr_length)
  _ ← write_block (b'.' ∷ b'.' ∷ 0 ∷ []) block name_boundary 3
  _ ← write_block_u64 root block (name_boundary * 2 - addr_length)
  _ ← read_block block (name_boundary - addr_length) addr_length
  _ ← read_block block (name_boundary + name_boundary - addr_length) addr_length
  pure tt

-- The end of `tfs_mkfs`: the root's block, and its inode, which was read as `found`.
unfoldable pub finish_root : ℕ → Node → ℕ → ℕ → ℕ → Cmd ℤ
finish_root root found access creation block = do
  root_entries root block
  written ← time
  let temp_node = record found {
    mode = root_mode;
    access_time = access;
    creation_time = creation;
    direct_blocks = set found.direct_blocks 0 block;
    data_time = written;
    size = name_boundary * 2;
    blocks = 1;
    links = 1;
  }
  _ ← commit_inode temp_node root
  _ ← fetch_inode root temp_node
  pure (pos 0)

-- The root directory: its inode, and its block.
unfoldable pub make_root : Cmd ℤ
make_root = do
  root ← allocate_inode
  (λ s. ret tt (record s { globals = record (s.globals) { root_node = root } }))
  buff ← stale_node
  lseek_set root
  bs ← read node_size
  access ← time
  creation ← time
  block ← allocate_block
  finish_root root (decode (overlay bs (encode buff))) access creation block

-- `tfs_mkfs` before the root directory is made: the geometry, the zeros of the superblock and the
-- inode table, and the free list.
unfoldable pub lay_out : ℤ → Cmd (Unit {0})
lay_out fd = do
  set_geometry fd
  g ← gets (λ s. s.globals)
  lseek_set 0
  clear_blocks (g.inode_blocks + 1)
  lseek_set 0
  _ ← write_u64 g.inode_byte_boundary
  fill_lists (suc g.data_blocks) 0 g.inode_byte_boundary

unfoldable pub tfs_mkfs : ℤ → Cmd ℤ
tfs_mkfs fd = if is_neg fd then pure (negsuc 0) else do lay_out fd; make_root
