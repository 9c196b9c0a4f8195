-- ===== src/Handlers.antt =====
-- tyrant.c: the other operations that FUSE calls, on the tree of directories and on inodes.
pub mod Dots
pub mod Missing
pub mod Attributes
use Prim.Native.Nat.{bit_and, bit_or}
use tyrant_fs.Base.{
  ℕ, zero, suc, ◌+◌, ◌*◌, ◌/◌, none, some, List, [], ◌∷◌, ◌++◌, leb, ◌==◌, if◌then◌else◌, set,
  replicate, get_or,
}
use tyrant_fs.Base.Bytes.{overlay}
use tyrant_fs.Base.Word.{add64, sub64}
use tyrant_fs.Base.Int.{ℤ, pos, negsuc}
use tyrant_fs.Device.{Cmd, pure, gets, ◌>>=◌, ◌>>◌, time}
use tyrant_fs.Block.{block_size, read_block, write_block, write_block_u64}
use tyrant_fs.Inode.{Node, inode_size_boundary, fetch_new, commit_inode, allocate_inode, free_inode}
use tyrant_fs.FreeList.{allocate_block}
use tyrant_fs.BlockMap.{get_i_block}
use tyrant_fs.Directory.{entries_per_block, c_string, same_string, stale_bytes, add_to_directory}
use tyrant_fs.Removal.{rename_from_parent}
use tyrant_fs.FilePath.{find_path_node}
use tyrant_fs.Unlink.{dir_bit, enoent, split_path, find_parent, release}

-- `MAX_NAME_LENGTH` and `PATH_BOUNDARY` of tyrant.h.
abbrev pub max_name_length : ℕ
max_name_length = 248

abbrev pub path_boundary : ℕ
path_boundary = 256

-- The new directory's block: "." with its own address, and "..", where the offset of the parent's
-- address is `2 * PATH_BOUNDARY - BLOCKSIZE`.
unfoldable pub write_dots : ℕ → ℕ → ℕ → Cmd (Unit {0})
write_dots block dir parent = do
  _ ← write_block (b'.' ∷ 0 ∷ []) block 0 2
  _ ← write_block_u64 dir block max_name_length
  _ ← write_block (b'.' ∷ b'.' ∷ 0 ∷ []) block path_boundary 3
  _ ← write_block_u64 parent block (sub64 (2 * path_boundary) block_size)
  pure tt

-- `tfs_mkdir` behind the parent search.
unfoldable pub make_dir : ℕ → List ℕ → ℕ → Cmd ℤ
make_dir parent name m = do
  _ ← fetch_new parent
  dir ← allocate_inode
  if dir == 0 then pure (negsuc 0) else do
    fetched ← fetch_new dir
    block ← allocate_block
    if block == 0 then (do _ ← free_inode dir; pure (negsuc 0)) else (do
      _ ← write_block (replicate block_size 0) block 0 block_size
      now ← time
      uid ← gets (λ s. s.env.euid)
      gid ← gets (λ s. s.env.egid)
      write_dots block dir parent
      let dir_node = record fetched {
        creation_time = now;
        access_time = now;
        change_time = now;
        data_time = now;
        user_id = uid;
        group_id = gid;
        mode = bit_or m dir_bit;
        direct_blocks = set fetched.direct_blocks 0 block;
        blocks = 1;
        links = 0;
        size = path_boundary * 2;
      }
      _ ← commit_inode dir_node dir
      result ← add_to_directory parent dir name
      elim result [
        | pos n ↦ pure (pos n)
        | negsuc n ↦ do _ ← release block; _ ← free_inode dir; pure (negsuc 0)
      ])

unfoldable pub tfs_mkdir : List ℕ → ℕ → Cmd ℤ
tfs_mkdir path m = elim (split_path path) [
  | none ↦ pure (negsuc 0)
  | some (before, name) ↦ do
    parent ← find_parent before
    if parent == 0 then pure enoent else make_dir parent name m
]

-- `tfs_mknod` behind the parent search.
unfoldable pub make_node : ℕ → List ℕ → ℕ → Cmd ℤ
make_node parent name m = do
  new ← allocate_inode
  if new == 0 then pure (negsuc 0) else do
    fetched ← fetch_new new
    uid ← gets (λ s. s.env.euid)
    gid ← gets (λ s. s.env.egid)
    now ← time
    let data_node = record fetched {
      mode = m;
      links = 0;
      blocks = 0;
      size = 0;
      user_id = uid;
      group_id = gid;
      creation_time = now;
      access_time = now;
      change_time = now;
      data_time = now;
    }
    _ ← commit_inode data_node new
    result ← add_to_directory parent new name
    elim result [ pos n ↦ pure (pos n) | negsuc n ↦ do _ ← free_inode new; pure (negsuc n) ]

unfoldable pub tfs_mknod : List ℕ → ℕ → Cmd ℤ
tfs_mknod path m = elim (split_path path) [
  | none ↦ pure (negsuc 0)
  | some (before, name) ↦ do
    parent ← find_parent before
    if parent == 0 then pure enoent else make_node parent name m
]

-- The inner loop of `tfs_readdir`, with the rounds left: the names for `filler`, the new
-- `byte_count` and the buffer `name`.
unfoldable pub list_entries : ℕ → ℕ → ℕ → ℕ → ℕ → List ℕ → Cmd (List (List ℕ) × ℕ × List ℕ)
list_entries zero block i byte_count total_bytes name = pure ([], byte_count, name)
list_entries (suc k) block i byte_count total_bytes name =
    if leb total_bytes byte_count then pure ([], byte_count, name) else do
      bs ← read_block block i max_name_length
      let found = overlay bs name
      (names, count, last) ←
          list_entries k block (i + path_boundary) (add64 byte_count path_boundary) total_bytes
            found
      pure (if get_or found 0 0 == 0 then names else c_string found ∷ names, count, last)

-- The outer loop of `tfs_readdir`, with the blocks left.
unfoldable pub list_blocks : ℕ → Node → ℕ → ℕ → ℕ → List ℕ → Cmd (List (List ℕ))
list_blocks zero dir block_count byte_count total_bytes name = pure []
list_blocks (suc k) dir block_count byte_count total_bytes name =
    if leb total_bytes byte_count then pure [] else do
      block ← get_i_block dir block_count
      if block == 0
          then list_blocks k dir (block_count + 1) (add64 byte_count block_size) total_bytes name
          else (do
            (names, count, last) ←
                list_entries entries_per_block block 0 byte_count total_bytes name
            rest ← list_blocks k dir (block_count + 1) count total_bytes last
            pure (names ++ rest))

-- The result and the names that `filler` is called with.
unfoldable pub tfs_readdir : List ℕ → Cmd (ℤ × List (List ℕ))
tfs_readdir path = do
  dir_loc ← find_path_node path
  if dir_loc == 0 then pure (enoent, []) else do
    fetched ← fetch_new dir_loc
    now ← time
    let dir = record fetched { access_time = now }
    _ ← commit_inode dir dir_loc
    name ← stale_bytes max_name_length
    names ← list_blocks dir.blocks dir 0 0 dir.size name
    pure (pos 0, names)

-- The permission bits that an access mode asks for: O_RDONLY is 0, O_WRONLY 1, O_RDWR 2.
unfoldable pub open_bits : ℕ → ℕ
open_bits flags =
    let access = bit_and flags 3 in
    if access == 2 then 0o666 else if access == 0 then 0o444 else if access == 1 then 0o222 else 0

unfoldable pub tfs_open : List ℕ → ℕ → Cmd ℤ
tfs_open path flags = do
  cur ← find_path_node path
  if cur == 0 then pure enoent else do
    fetched ← fetch_new cur
    now ← time
    _ ← commit_inode (record fetched { access_time = now }) cur
    pure (if bit_and (open_bits flags) fetched.mode == 0 then negsuc 0 else pos 0)

-- The members of `struct stat` that `tfs_getattr` sets.
pub record Stat : Type 0 where
  pub st_ino : ℕ
  pub st_mode : ℕ
  pub st_nlink : ℕ
  pub st_size : ℕ
  pub st_blocks : ℕ
  pub st_uid : ℕ
  pub st_gid : ℕ
  pub st_blksize : ℕ
  pub st_atime : ℕ
  pub st_mtime : ℕ
  pub st_ctime : ℕ

unfoldable pub stat_of : ℕ → Node → Stat
stat_of cur cur_node = record {
  st_ino = sub64 cur block_size / inode_size_boundary;
  st_mode = cur_node.mode;
  st_nlink = cur_node.links;
  st_size = cur_node.size;
  st_blocks = cur_node.blocks;
  st_uid = cur_node.user_id;
  st_gid = cur_node.group_id;
  st_blksize = block_size;
  st_atime = cur_node.access_time;
  st_mtime = cur_node.data_time;
  st_ctime = cur_node.change_time;
}

-- The function changes nothing where there is no such path.
unfoldable pub tfs_getattr : List ℕ → Stat → Cmd (ℤ × Stat)
tfs_getattr path st = do
  cur ← find_path_node path
  if cur == 0
      then pure (enoent, st)
      else do cur_node ← fetch_new cur; pure (pos 0, stat_of cur cur_node)

-- `find_path_node`, `fetch_inode`, a change of the members, `commit_inode`.
unfoldable pub update_inode : List ℕ → (Node → Node) → Cmd ℤ
update_inode path change = do
  cur ← find_path_node path
  if cur == 0
      then pure enoent
      else do cur_node ← fetch_new cur; _ ← commit_inode (change cur_node) cur; pure (pos 0)

unfoldable pub tfs_utime : List ℕ → ℕ → ℕ → Cmd ℤ
tfs_utime path actime modtime =
    update_inode path (λ n. record n { access_time = actime; change_time = modtime })

unfoldable pub tfs_flush : List ℕ → Cmd ℤ
tfs_flush path = pure (pos 0)

unfoldable pub tfs_chmod : List ℕ → ℕ → Cmd ℤ
tfs_chmod path m = update_inode path (λ n. record n { mode = m })

unfoldable pub tfs_chown : List ℕ → ℕ → ℕ → Cmd ℤ
tfs_chown path owner group = update_inode path (λ n. record n { user_id = owner; group_id = group })

unfoldable pub tfs_rename : List ℕ → List ℕ → Cmd ℤ
tfs_rename path new_name = do
  cur ← find_path_node path
  if cur == 0 then pure enoent else do
    _ ← fetch_new cur
    if same_string path (b'/' ∷ []) then pure (negsuc 0) else elim (split_path path) [
      | none ↦ pure (negsuc 0)
      | some (before, _) ↦ do
        parent ← find_parent before
        if parent == 0 then pure (negsuc 0) else elim (split_path new_name) [
          | none ↦ pure (negsuc 0)
          | some (_, name) ↦ rename_from_parent parent cur name
        ]
    ]
