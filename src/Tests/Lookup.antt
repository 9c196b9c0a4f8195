-- ===== src/Tests/Lookup.antt =====
-- Paths that are looked up in the small directory.
use tyrant_fs.Base.{ℕ, zero, suc, ◌+◌, ◌≤◌, ◌<◌, ◌≡◌, ◌≢◌, refl, [], ◌∷◌, arith, get_or}
use tyrant_fs.Base.Bytes.{store, bytes_at, le_bytes, le_value}
use tyrant_fs.Device.Command.{Returns}
use tyrant_fs.Inode.{encode, pack, head_values, tail_values}
use tyrant_fs.Inode.Search.{OnlyAt}
use tyrant_fs.Directory.{check_block, check_entries, c_string, same_string}
use tyrant_fs.FilePath.{tokens, tokens_from, find_path_node}
use tyrant_fs.FilePath.Lookup.{
  hit, Finds, nowhere, in_block, Leads, IsDir, Searchable, find_path_node_lem,
}
use tyrant_fs.Tests.Removal.{dir_node, dir_bytes, dir_fs, dir_inode}
use tyrant_fs.Handlers.{Stat, stat_of}

tree_hit : hit dir_bytes 170 dir_node (b'a' ∷ []) 0 ≡ 16640
unfolding check_block check_entries c_string same_string le_value bytes_at store le_bytes encode
    pack head_values tail_values
tree_hit = refl

tree_finds : (a : ℕ) → a ≢ 0 → Finds dir_bytes 170 dir_node (b'a' ∷ []) a → a + 256 ≤ 28672
tree_finds a ne (nowhere z all) = absurd (ne z)
tree_finds a ne (in_block zero h e k before) = let f = tree_hit in omega arith
tree_finds a ne (in_block (suc i) h e k before) = absurd (omega arith)

tree-IsDir : IsDir 28672 dir_node
tree-IsDir = record { few = omega arith; there = there }
  where
    there :
        (i : ℕ)
        → i < 1
        → (get_or dir_node.direct_blocks i 0 ≢ 0)
          × (get_or dir_node.direct_blocks i 0 + 4096 ≤ 28672)
    there zero h = (omega arith, omega arith)
    there (suc i) h = absurd (omega arith)

tree-Searchable : Searchable dir_bytes 28672 170 16384 ((b'a' ∷ []) ∷ [])
tree-Searchable = rw dir_inode (tree-IsDir, λ a ne f. (tree_finds a ne f, tt))

find_path_node_lem_example :
    Returns
      (λ a t. Leads dir_bytes 170 16384 (tokens (b'/' ∷ b'a' ∷ [])) a × OnlyAt dir_fs t)
      (find_path_node (b'/' ∷ b'a' ∷ []) dir_fs)
unfolding tokens tokens_from
find_path_node_lem_example =
    find_path_node_lem dir_fs (b'/' ∷ b'a' ∷ []) (omega arith) (omega arith) tree-Searchable

abbrev blank : Stat
blank = stat_of 0 dir_node
