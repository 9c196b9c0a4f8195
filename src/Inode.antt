-- ===== src/Inode.antt =====
-- disk.h and disk.c: `struct inode`, its layout on x86-64 (208 bytes, with padding behind `mode`
-- and `links`), and the functions that read, write, find and free inodes.
pub mod Codec
pub mod Io
pub mod Search
pub mod Valid
use tyrant_fs.Base.{
  ℕ, zero, suc, ◌+◌, List, [], ◌∷◌, ◌++◌, ltb, ◌==◌, if◌then◌else◌, take, drop, get_or, replicate,
}
use tyrant_fs.Base.Bytes.{bytes_at, overlay, le_bytes, le_value}
use tyrant_fs.Base.Int.{ℤ, pos, negsuc, is_neg}
use tyrant_fs.Device.{Cmd, pure, gets, ◌>>=◌, ◌>>◌, lseek_set, read, write}
use tyrant_fs.Device.Command.{ret, out_of_fuel}
use tyrant_fs.Block.{block_size}

-- `sizeof(node)`
abbrev pub node_size : ℕ
node_size = 208

-- `INODE_SIZE_BOUNDARY`: the least power of two that is at least `sizeof(node)`.
abbrev pub inode_size_boundary : ℕ
inode_size_boundary = 256

-- `pad_mode` and `pad_links` are the padding bytes, which are read and written with the rest.
pub record Node : Type 0 where
  pub user_id : ℕ
  pub group_id : ℕ
  pub mode : ℕ
  pub pad_mode : ℕ
  pub size : ℕ
  pub access_time : ℕ
  pub change_time : ℕ
  pub data_time : ℕ
  pub creation_time : ℕ
  pub deletion_time : ℕ
  pub links : ℕ
  pub pad_links : ℕ
  pub blocks : ℕ
  pub direct_blocks : List ℕ
  pub indirect_blocks : ℕ
  pub dbl_indirect : ℕ
  pub trpl_indirect : ℕ
  pub flags : ℕ
  pub checksum : ℕ

-- The widths of the members in bytes: before, in and behind `direct_blocks`.
abbrev pub head_widths : List ℕ
head_widths = 4 ∷ 4 ∷ 4 ∷ 4 ∷ 8 ∷ 8 ∷ 8 ∷ 8 ∷ 8 ∷ 8 ∷ 4 ∷ 4 ∷ 8 ∷ []

abbrev pub direct_widths : List ℕ
direct_widths = 8 ∷ 8 ∷ 8 ∷ 8 ∷ 8 ∷ 8 ∷ 8 ∷ 8 ∷ 8 ∷ 8 ∷ 8 ∷ 8 ∷ []

abbrev pub tail_widths : List ℕ
tail_widths = 8 ∷ 8 ∷ 8 ∷ 4 ∷ 4 ∷ []

-- Members one behind the other, and back.
unfoldable pub pack : List ℕ → List ℕ → List ℕ
pack (w ∷ ws) (v ∷ vs) = le_bytes w v ++ pack ws vs
pack _ _ = []

unfoldable pub unpack : List ℕ → List ℕ → List ℕ
unpack [] bs = []
unpack (w ∷ ws) bs = le_value (take w bs) ∷ unpack ws (drop w bs)

unfoldable pub head_values : Node → List ℕ
head_values n =
    n.user_id ∷ n.group_id ∷ n.mode ∷ n.pad_mode ∷ n.size ∷ n.access_time ∷ n.change_time
    ∷ n.data_time ∷ n.creation_time ∷ n.deletion_time ∷ n.links ∷ n.pad_links ∷ n.blocks ∷ []

unfoldable pub tail_values : Node → List ℕ
tail_values n = n.indirect_blocks ∷ n.dbl_indirect ∷ n.trpl_indirect ∷ n.flags ∷ n.checksum ∷ []

-- The bytes of a node in memory.
unfoldable pub encode : Node → List ℕ
encode n =
    pack head_widths (head_values n)
    ++ (pack direct_widths n.direct_blocks ++ pack tail_widths (tail_values n))

of_values : List ℕ → List ℕ → List ℕ → Node
of_values h d t = record {
  user_id = get_or h 0 0;
  group_id = get_or h 1 0;
  mode = get_or h 2 0;
  pad_mode = get_or h 3 0;
  size = get_or h 4 0;
  access_time = get_or h 5 0;
  change_time = get_or h 6 0;
  data_time = get_or h 7 0;
  creation_time = get_or h 8 0;
  deletion_time = get_or h 9 0;
  links = get_or h 10 0;
  pad_links = get_or h 11 0;
  blocks = get_or h 12 0;
  direct_blocks = d;
  indirect_blocks = get_or t 0 0;
  dbl_indirect = get_or t 1 0;
  trpl_indirect = get_or t 2 0;
  flags = get_or t 3 0;
  checksum = get_or t 4 0;
}

-- The node that 208 bytes of memory hold.
unfoldable pub decode : List ℕ → Node
unfolding of_values
decode bs =
    of_values (unpack head_widths bs) (unpack direct_widths (drop 80 bs))
      (unpack tail_widths (drop 176 bs))

-- An uninitialised `node`.
unfoldable pub stale_node : Cmd Node
stale_node s = ret (decode (bytes_at s.env.stale 0 node_size)) s

-- `fetch_inode(my_node, &buff)`: what `buff` holds after it. It returns null for address 0 only.
unfoldable pub fetch_inode : ℕ → Node → Cmd Node
fetch_inode my_node buff =
    if my_node == 0
    then pure buff
    else do lseek_set my_node; bs ← read node_size; pure (decode (overlay bs (encode buff)))

-- A fetch into an uninitialised local.
unfoldable pub fetch_new : ℕ → Cmd Node
fetch_new my_node = do buff ← stale_node; fetch_inode my_node buff

unfoldable pub commit_inode : Node → ℕ → Cmd ℤ
commit_inode my_node node_loc = do lseek_set node_loc; write (encode my_node)

-- The loop of `allocate_inode`, on fuel. `inode_ptr` is what the last round read.
unfoldable pub find_free_inode : ℕ → ℕ → Node → Cmd ℕ
find_free_inode zero i inode_ptr = λ _. out_of_fuel
find_free_inode (suc k) i inode_ptr = do
  boundary ← gets (λ s. s.globals.inode_byte_boundary)
  if ltb i boundary
      then (do
        lseek_set i
        bs ← read node_size
        let cur = decode (overlay bs (encode inode_ptr))
        if cur.mode == 0 then pure i else find_free_inode k (i + inode_size_boundary) cur)
      else pure 0

unfoldable pub allocate_inode : Cmd ℕ
allocate_inode = do
  fd ← gets (λ s. s.globals.drive)
  if is_neg fd then pure 0 else do
    lseek_set block_size
    inode_ptr ← stale_node
    boundary ← gets (λ s. s.globals.inode_byte_boundary)
    find_free_inode (suc boundary) block_size inode_ptr

unfoldable pub free_inode : ℕ → Cmd ℤ
free_inode cur_node = if cur_node == 0 then pure (negsuc 0) else do
  lseek_set cur_node
  _ ← write (replicate inode_size_boundary 0)
  _ ← fetch_new cur_node
  pure (pos 0)

-- What goes into the buffer, if anything, and the result, which is 0 even if nothing is read.
unfoldable pub read_inode : ℕ → Cmd (List ℕ × ℤ)
read_inode inode =
    if inode == 0
    then pure ([], negsuc 0)
    else do lseek_set inode; bs ← read inode_size_boundary; pure (bs, pos 0)

-- `buff` holds `INODE_SIZE_BOUNDARY` bytes.
unfoldable pub write_inode : ℕ → List ℕ → Cmd ℤ
write_inode inode buff = if inode == 0 then pure (negsuc 0) else do
  lseek_set inode
  valid ← write (take inode_size_boundary buff)
  pure (elim valid [ pos n ↦ if ltb 0 n then pos 0 else negsuc 0 | negsuc n ↦ negsuc 0 ])
