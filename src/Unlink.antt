-- ===== src/Unlink.antt =====
-- tyrant_help.c and tyrant.c: the removal of a file or a directory with all that it holds
-- (`sub_unlink`, `tfs_unlink`, `tfs_rmdir`), and the split of a path into parent and name.
-- `sub_unlink` calls itself on the entries of a directory: it runs on fuel.
pub mod Split
pub mod Owned
pub mod Blocks
pub mod Counted
pub mod File
pub mod Dropped
pub mod Listed
pub mod ByPath
use Prim.Native.Nat.{bit_and}
use tyrant_fs.Base.{
  ℕ, zero, suc, ◌+◌, ◌-◌, ◌*◌, ◌%◌, ◌^◌, Option, none, some, List, [], ◌∷◌, Bool, ◌||◌, ◌==◌,
  if◌then◌else◌, get_or, take, drop, length,
}
use tyrant_fs.Base.Word.{add64, sub64, sub32}
use tyrant_fs.Base.Int.{ℤ, pos, negsuc}
use tyrant_fs.Device.{Cmd, pure, gets, ◌>>=◌, ◌>>◌, time}
use tyrant_fs.Device.Command.{out_of_fuel}
use tyrant_fs.Block.{block_size, addr_length, name_boundary, read_block_u64}
use tyrant_fs.Inode.{Node, fetch_new, fetch_inode, commit_inode, free_inode}
use tyrant_fs.FreeList.{free_block}
use tyrant_fs.BlockMap.{get_i_block}
use tyrant_fs.Directory.{entries_per_block, same_string}
use tyrant_fs.Removal.{remove_link_from_parent}
use tyrant_fs.FilePath.{find_path_node}

abbrev pub dir_bit : ℕ
dir_bit = 0x4000

-- `(mode & S_IFDIR) == S_IFDIR`
abbrev pub is_dir : ℕ → Bool
is_dir mode = bit_and mode dir_bit == dir_bit

-- The loop from the end of the path to its last `/`, `i` being one more than the code's. The path
-- before the `/` and the name behind it; `none` if there is no `/`, where the code also reads the byte
-- before the copy of the path, whose value does not matter.
unfoldable pub scan_back : ℕ → List ℕ → Option (List ℕ × List ℕ)
scan_back zero path = none
scan_back (suc i) path =
    if get_or path i 0 == b'/' then some (take i path, drop (suc i) path) else scan_back i path

unfoldable pub split_path : List ℕ → Option (List ℕ × List ℕ)
split_path path = scan_back (length path) path

-- The inode of the parent: an empty path before the last `/` is the root.
unfoldable pub find_parent : List ℕ → Cmd ℕ
find_parent [] = gets (λ s. s.globals.root_node)
find_parent (c ∷ path) = find_path_node (c ∷ path)

-- `free_block(drive, block)`
unfoldable pub release : ℕ → Cmd ℤ
release block = do fd ← gets (λ s. s.globals.drive); free_block fd block

-- The inner loop of the removal of a directory, over the entries of block `i - 1` from the last to
-- the first: `unlink` is called for each but "." and "..". `tmp` keeps the address read last.
unfoldable pub unlink_entries : (ℕ → Cmd ℤ) → ℕ → ℕ → ℕ → ℕ → ℕ → Cmd ℕ
unlink_entries unlink zero i j block tmp = pure tmp
unlink_entries unlink (suc k) i j block tmp =
    let place = sub64 (add64 ((i - 1) * block_size % 2 ^ 64) j) name_boundary in
    if j == 0
    then pure tmp
    else if place == name_boundary || place == 0
    then unlink_entries unlink k i (j - name_boundary) block tmp
    else do
      child ← read_block_u64 tmp block (sub64 j addr_length)
      _ ← unlink child
      unlink_entries unlink k i (j - name_boundary) block child

-- The outer loop, with `i` blocks left of `total`; each block goes to the free list, where the C code
-- passes `block-1`.
unfoldable pub unlink_blocks : (ℕ → Cmd ℤ) → ℕ → ℕ → Node → ℕ → Cmd (Unit {0})
unlink_blocks unlink zero total dir_node tmp = pure tt
unlink_blocks unlink (suc i) total dir_node tmp = do
  block ← get_i_block dir_node i
  child ←
      unlink_entries unlink entries_per_block (suc i)
        (if suc i == total then dir_node.size % block_size else block_size) block tmp
  _ ← release (sub64 block 1)
  unlink_blocks unlink i total dir_node child

-- The blocks of a file, from the last to the first.
unfoldable pub free_blocks_down : ℕ → Node → Cmd (Unit {0})
free_blocks_down zero file_node = pure tt
free_blocks_down (suc i) file_node = do
  block ← get_i_block file_node i
  _ ← release block
  free_blocks_down i file_node

-- The blocks of a file from index `i` on, with the rounds left.
unfoldable pub free_blocks_up : ℕ → ℕ → Node → Cmd (Unit {0})
free_blocks_up zero i file_node = pure tt
free_blocks_up (suc k) i file_node = do
  block ← get_i_block file_node i
  _ ← release block
  free_blocks_up k (i + 1) file_node

unfoldable pub sub_unlink : ℕ → ℕ → ℕ → Cmd ℤ
sub_unlink zero parent child = λ _. out_of_fuel
sub_unlink (suc fuel) parent child = if parent == 0 || child == 0 then pure (negsuc 0) else do
  status ← remove_link_from_parent parent child
  elim status [
    | negsuc n ↦ pure (negsuc 0)
    | pos n ↦ do
      _ ← fetch_new parent
      fetched ← fetch_new child
      let child_node = record fetched { links = sub32 fetched.links 1 }
      if child_node.links == 0
          then (do
            (if is_dir child_node.mode
                then unlink_blocks (sub_unlink fuel child) child_node.blocks child_node.blocks
                    child_node 0
                else free_blocks_down child_node.blocks child_node)
            _ ← free_inode child
            pure (pos 0))
          else (do _ ← commit_inode child_node child; pure (pos 0))
  ]

-- `tfs_unlink` behind the parent search.
unfoldable pub unlink_from : ℕ → ℕ → ℕ → Node → Cmd ℤ
unlink_from fuel parent cur buff = do
  status ← remove_link_from_parent parent cur
  elim status [
    | negsuc n ↦ pure (negsuc 0)
    | pos n ↦ do
      fetched ← fetch_inode cur buff
      _ ← fetch_new parent
      now ← time
      let cur_node = record fetched { links = sub32 fetched.links 1; change_time = now }
      _ ← commit_inode cur_node cur
      if cur_node.links == 0
          then (do
            (if is_dir cur_node.mode
                then unlink_blocks (sub_unlink fuel cur) cur_node.blocks cur_node.blocks cur_node 0
                else free_blocks_up cur_node.blocks 0 cur_node)
            _ ← free_inode cur
            pure (pos 0))
          else (do _ ← commit_inode cur_node cur; pure (pos 0))
  ]

-- -ENOENT
abbrev pub enoent : ℤ
enoent = negsuc 1

unfoldable pub tfs_unlink : ℕ → List ℕ → Cmd ℤ
tfs_unlink fuel path = do
  cur ← find_path_node path
  if cur == 0 then pure enoent else do
    cur_node ← fetch_new cur
    if same_string path (b'/' ∷ []) then pure (negsuc 0) else elim (split_path path) [
      | none ↦ pure (negsuc 0)
      | some (before, _) ↦ do
        parent ← find_parent before
        if parent == 0 then pure (negsuc 0) else unlink_from fuel parent cur cur_node
    ]

unfoldable pub tfs_rmdir : ℕ → List ℕ → Cmd ℤ
tfs_rmdir fuel path = tfs_unlink fuel path
