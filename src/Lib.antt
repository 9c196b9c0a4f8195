-- ===== src/Lib.antt =====
-- TyrantFS, a file system on a block device, served through FUSE.
--
-- The program. disk.c keeps the layout of the device: a superblock, an inode table, and data blocks,
-- of which the free ones form a linked list of list blocks. tyrant_help.c stands on it: the blocks of
-- an inode by their index, the entries of directories, path lookup, and recursive removal. tyrant.c
-- holds the operations that FUSE calls. All of them work on one device, through `lseek`, `read` and
-- `write` on the global file descriptor `drive`, and on the global variables of disk.c.
--
-- The model. Device is this world: the bytes of the device, its size, the file position, the global
-- variables, the clock, the caller's ids and the bytes of uninitialised locals. A C function is a
-- command, a function from this state to a result and a new state (Device.Command). `lseek`, `read`
-- and `write` answer as a Linux block device with no hardware error does: a seek past the end is
-- refused, a read or write at the end is short. A pointer argument that is written through is a
-- second result; a buffer is the list of its bytes, and a C string the list of its bytes before the
-- terminator. Functions that FUSE calls with a pointer to a structure have no null pointers here.
-- Integers are native natural numbers; 32- and 64-bit additions and subtractions that the code
-- relies on wrap around (Base.Word), and signed results are ℤ (Base.Int), where the numbers of bytes that
-- `tfs_read` and `tfs_write` return are cut to an `int`.
--
-- The files, with the code that each models:
--   Base                     shared names, lists, byte memory, words, and signed results
--   Device                   the world; disk.c, its global variables
--   Block                    disk.h, the constants; disk.c: read_block, write_block
--   Inode                    disk.h: struct inode; disk.c: allocate_inode, free_inode, read_inode,
--                            write_inode, fetch_inode, commit_inode. Codec is the layout in memory,
--                            Valid says that bytes make a valid node, Io is fetching and committing,
--                            Search is the search for a free inode
--   FreeList                 disk.c: allocate_block, free_block. Exec and FreeExec compute what the
--                            commands do to the bytes; Chain says which set of blocks the bytes stand
--                            for; Slots, Head, Alloc, Put and Free are the proofs on bytes; Refine states
--                            the contract; Client is any sequence of calls; Frame is about writes that
--                            leave the free list alone
--   Format                   disk.c: tfs_disk_info, tfs_mkfs. Geometry is the division of the device,
--                            Slots, Lists, Layout and Overrun what the loops of the format leave, RootBlock,
--                            RootInode, Root and Made the root directory and the whole
--   BlockMap                 tyrant_help.c: get_i_block, add_block_to_node. Offsets is the arithmetic
--                            of the index blocks, Address the lookup as a function of the bytes,
--                            Grow and Indirect the growth of a file by a direct block and by one
--                            behind the indirect block
--   FetchBlock               disk.c: fetch_block. Levels says which blocks it reads
--   Directory                tyrant_help.c: add_addr, add_to_directory, check_block,
--                            check_indirect_blk, check_dbl_indirect_blk, check_trpl_indirect_blk.
--                            Entries is the search in one block, NewEntry and Add a new entry in one,
--                            and Lookup the search for it
--   Removal                  tyrant_help.c: remove_link_from_parent, rename_from_parent. Search is the
--                            search for an entry by its inode, Entry the move of the last entry,
--                            Shrink the new size, Link and Rename the whole functions
--   FilePath                 tyrant_help.c: find_path_node. Tokens is about the names in a path,
--                            Lookup the walk along them
--   Unlink                   tyrant_help.c: sub_unlink; tyrant.c: tfs_unlink, tfs_rmdir, and the split
--                            of a path that the operations share (Split). Owned and Blocks are the
--                            release of a file's blocks, Counted the lower number of its links, File
--                            the end of a file whose last link goes, Dropped and Listed the same
--                            together with the directory that lists it, ByPath as FUSE calls it
--   Files                    tyrant.c: tfs_read, tfs_write, tfs_truncate. Contents is what a file's
--                            bytes are, Read, Written, Write and Overwrite the loops on them, Placed
--                            and Nodes the inode on the device, Small, Origin, Growth, Sparing and
--                            Extend files of direct blocks that grow, RoundTrip a read behind a write,
--                            Isolation a second file, Shorten and Truncate the truncation, and ByPath
--                            the operations as FUSE calls them
--   Handlers                 tyrant.c: tfs_mkdir, tfs_mknod, tfs_readdir, tfs_open, tfs_getattr,
--                            tfs_utime, tfs_flush, tfs_chmod, tfs_chown, tfs_rename. Dots is the first
--                            two entries of a directory, Attributes the changes of an inode, Missing
--                            what a path that leads nowhere gives
--   Tests                    a small device, runs of the code, and the theorems at it
--
-- Bounds and fuel. Loops with a fixed number of rounds are recursions on it. The search of
-- `allocate_inode` has as much fuel as the inode table has bytes, where each round goes on by an
-- inode of 256 bytes, and the outer loop of `tfs_mkfs` has a round for each data block, where each
-- round but the last writes 512 addresses. The loop of `tfs_truncate` has a round more than the file
-- has blocks, and ends before them. `sub_unlink` calls itself on the entries of directories
-- and takes its fuel as an argument, since a damaged device can hold a cycle. Theorems on addresses
-- take the device to be smaller than 2 ^ 63 bytes, as `off_t` has it. Theorems on files that grow stop
-- at byte 49152, the end of the 12 direct blocks.
--
-- What C leaves undefined. The triple indirect branch of `fetch_block` can turn a negative double into
-- a `uint64_t`: what that gives is a parameter. In `remove_link_from_parent` and `rename_from_parent`
-- the offset of an entry in its directory is an `int`: the model's wraps around, and the theorems are
-- about directories of at most 524288 blocks, in which it does not. The scan for the last `/` of a path
-- that holds none reads the byte before the copy, which does not matter for its result.
--
-- Not modelled. mkfs.c is a `main` around `tfs_mkfs` with older copies of the operations of tyrant.c,
-- which it does not call. `main` of tyrant.c and its table of operations are glue for FUSE,
-- test_block.c is written for an earlier interface, and lib/ and include/ are a copy of libfuse.
-- Errors of the hardware, threads, and memory that `malloc` does not give are not modelled either;
-- FUSE's `filler` is the list of the names it is called with.
pub mod Base
pub mod Device
pub mod Block
pub mod Inode
pub mod FreeList
pub mod Format
pub mod BlockMap
pub mod FetchBlock
pub mod Directory
pub mod FilePath
pub mod Removal
pub mod Unlink
pub mod Files
pub mod Handlers
pub mod Tests
