-- ===== src/Tests.antt =====
-- A small device, and the tests and examples of each part.
mod FreeList
mod Block
mod Inode
mod BlockMap
mod Files
mod Contents
mod Unlink
mod Removal
mod Lookup
mod FetchBlock
mod Listed
mod Paths
mod Handlers
use tyrant_fs.Base.{ℕ, ◌+◌, [], ◌∷◌}
use tyrant_fs.Base.Bytes.{Memory, store, le_bytes}
use tyrant_fs.Base.Int.{pos}
use tyrant_fs.Device.{Fs, Globals, Env}
use tyrant_fs.Inode.{Node}

-- Five blocks: the superblock, a list block at 4096 that lists 8192 and 12288, and one in use.
abbrev pub small_bytes : Memory
small_bytes =
    store (store (store (λ _. 0) 0 (le_bytes 8 4096)) 4096 (le_bytes 8 8192)) 4104
      (le_bytes 8 12288)

abbrev pub no_globals : Globals
no_globals = record {
  drive = pos 3;
  root_node = 16384;
  drivesize = 20480;
  inode_byte_boundary = 8192;
  num_blocks = 5;
  inode_blocks = 0;
  data_blocks = 0;
}

abbrev pub some_env : Env
some_env = record { clock = λ t. t + 1000; euid = 7; egid = 8; stale = λ _. 170 }

abbrev pub small_fs : Fs
small_fs = record {
  byte = small_bytes;
  size = 20480;
  at = 0;
  ticks = 0;
  globals = no_globals;
  env = some_env;
}

abbrev pub small_node : Node
small_node = record {
  user_id = 1000;
  group_id = 100;
  mode = 0x81a4;
  pad_mode = 0;
  size = 5000;
  access_time = 11;
  change_time = 12;
  data_time = 13;
  creation_time = 14;
  deletion_time = 15;
  links = 1;
  pad_links = 0;
  blocks = 2;
  direct_blocks = 20480 ∷ 24576 ∷ 0 ∷ 0 ∷ 0 ∷ 0 ∷ 0 ∷ 0 ∷ 0 ∷ 0 ∷ 0 ∷ 0 ∷ [];
  indirect_blocks = 0;
  dbl_indirect = 0;
  trpl_indirect = 0;
  flags = 0;
  checksum = 0;
}
