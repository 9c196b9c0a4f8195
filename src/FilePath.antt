-- ===== src/FilePath.antt =====
-- tyrant_help.c: `find_path_node`, from a path to the address of its inode.
pub mod Tokens
pub mod Lookup
use tyrant_fs.Base.{ℕ, zero, suc, ◌-◌, List, [], ◌∷◌, ◌++◌, ◌==◌, leb, if◌then◌else◌, get_or, drop}
use tyrant_fs.Device.{Cmd, pure, gets, ◌>>=◌, ◌>>◌, lseek_set, write}
use tyrant_fs.Block.{block_size}
use tyrant_fs.Inode.{Node, fetch_inode, fetch_new}
use tyrant_fs.Directory.{
  check_block, stale_byte, stale_bytes, load_block, check_indirect_blk, check_dbl_indirect_blk,
  check_trpl_indirect_blk,
}

-- The tokens that `strtok(…, "/")` returns; `token` is the one being read.
unfoldable pub tokens_from : List ℕ → List ℕ → List (List ℕ)
tokens_from [] [] = []
tokens_from (c ∷ cs) [] = (c ∷ cs) ∷ []
tokens_from token (c ∷ path) =
    if c == b'/'
    then elim token [ [] ↦ tokens_from [] path | d ∷ ds ↦ (d ∷ ds) ∷ tokens_from [] path ]
    else tokens_from (token ++ c ∷ []) path

unfoldable pub tokens : List ℕ → List (List ℕ)
unfolding tokens_from
tokens path = tokens_from [] path

-- What the loop over the direct blocks leaves: the function returns 0, or `tmp_node` and
-- `block_cnt`, with `tmp_block`.
pub data Search : Type 0 where
  stops : Search
  goes_on : ℕ → ℕ → List ℕ → Search

-- The loop over the direct blocks left.
unfoldable pub search_direct : ℕ → List ℕ → List ℕ → ℕ → List ℕ → Cmd Search
search_direct zero direct name block_cnt tmp_block = pure (goes_on 0 block_cnt tmp_block)
search_direct (suc k) direct name block_cnt tmp_block =
    if block_cnt == 0 then pure stops else if get_or direct 0 0 == 0 then pure stops else do
      loaded ← load_block (get_or direct 0 0) tmp_block
      last ← stale_byte
      let tmp_node = check_block last loaded name
      if tmp_node == 0
          then search_direct k (drop 1 direct) name (block_cnt - 1) loaded
          else pure (goes_on tmp_node (block_cnt - 1) loaded)

-- `lseek(drive, table, SEEK_SET); write(drive, tmp_block, BLOCKSIZE);` and the search that follows.
unfoldable pub search_table :
    (List ℕ → List ℕ → ℕ → Cmd (ℕ × ℕ)) → ℕ → List ℕ → List ℕ → ℕ → Cmd (ℕ × ℕ)
search_table check table tmp_block name block_cnt = do
  lseek_set table
  _ ← write tmp_block
  check tmp_block name block_cnt

-- What follows the loop over the direct blocks: the searches through the index blocks.
unfoldable pub search_tables : Node → List ℕ → List ℕ → Search → Cmd (ℕ × List ℕ)
search_tables cur_node name tmp_block stops = pure (0, tmp_block)
search_tables cur_node name tmp_block (goes_on tmp_node block_cnt loaded) =
    if leb 1 tmp_node
    then pure (tmp_node, loaded)
    else if block_cnt == 0
    then pure (0, loaded)
    else do
      (found₁, left₁) ←
          search_table check_indirect_blk cur_node.indirect_blocks loaded name block_cnt
      if leb 1 found₁ then pure (found₁, loaded) else if left₁ == 0 then pure (0, loaded) else do
        (found₂, left₂) ←
            search_table check_dbl_indirect_blk cur_node.dbl_indirect loaded name left₁
        if leb 1 found₂ then pure (found₂, loaded) else if left₂ == 0 then pure (0, loaded) else do
          (found₃, _) ←
              search_table check_trpl_indirect_blk cur_node.trpl_indirect loaded name left₂
          pure (found₃, loaded)

-- The search for one name in the directory `cur_node`, 0 where the function returns 0. The buffer
-- `tmp_block` is kept for the next name.
unfoldable pub search_node : Node → List ℕ → List ℕ → Cmd (ℕ × List ℕ)
search_node cur_node name tmp_block = do
  r ← search_direct 12 cur_node.direct_blocks name cur_node.blocks tmp_block
  search_tables cur_node name tmp_block r

-- The loop over the names of the path. `tmp_node` is the inode that was found last.
unfoldable pub walk : List (List ℕ) → ℕ → Node → List ℕ → Cmd ℕ
walk [] tmp_node cur_node tmp_block = pure tmp_node
walk (name ∷ names) tmp_node cur_node tmp_block = do
  (found, loaded) ← search_node cur_node name tmp_block
  if found == 0
      then pure 0
      else do next_node ← fetch_inode found cur_node; walk names found next_node loaded

unfoldable pub find_path_node : List ℕ → Cmd ℕ
find_path_node path = do
  root ← gets (λ s. s.globals.root_node)
  if root == 0 then pure 0 else do
    tmp_block ← stale_bytes block_size
    cur_node ← fetch_new root
    walk (tokens path) root cur_node tmp_block
