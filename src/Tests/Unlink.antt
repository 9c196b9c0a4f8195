-- ===== src/Tests/Unlink.antt =====
-- The release of the blocks of the small file.
use tyrant_fs.Base.{ℕ, ◌≤◌, ◌<◌, ◌≡◌, refl, [], ◌∷◌, arith}
use tyrant_fs.Device.Command.{Returns, ret}
use tyrant_fs.FreeList.Chain.{count, members}
use tyrant_fs.Unlink.{free_blocks_up, free_blocks_down}
use tyrant_fs.Unlink.Owned.{Owns, block_list}
use tyrant_fs.Unlink.Blocks.{GivesBack, free_blocks_up-GivesBack, free_blocks_down-GivesBack}
use tyrant_fs.Tests.{small_bytes, small_node}
use tyrant_fs.Tests.FreeList.{small_members}
use tyrant_fs.Tests.Files.{
  file_fs, small-IsMapped, small_blocks, small_tables, file-IsFormatted, small-IsPlaced,
  small-IsSmall,
}
use tyrant_fs.Unlink.Counted.{IsFile}
use tyrant_fs.Files.{truncate_node}
use tyrant_fs.Files.Truncate.{Truncated, truncate_node-Truncated}
use tyrant_fs.Base.Int.{pos}

pub small-Owns : (P : ℕ → Type 0) → Owns file_fs (4096 ∷ []) small_node P
unfolding count
small-Owns P = record {
  mapped = small-IsMapped;
  formatted = file-IsFormatted;
  opened = refl;
  used = λ j p.
      small_blocks (λ b. count b (members small_bytes (4096 ∷ [])) ≡ 0)
        (rw small_members (ground arith)) (rw small_members (ground arith)) j;
  tables_used = λ j h. rw (small_tables j h) tt;
}

free_blocks_up-GivesBack_example :
    Returns
      (λ r t. GivesBack file_fs (4096 ∷ []) (block_list small_bytes small_node 0 2) t)
      (free_blocks_up 2 0 small_node file_fs)
free_blocks_up-GivesBack_example =
    free_blocks_up-GivesBack 2 0 file_fs (4096 ∷ []) small_node (small-Owns (λ j. 0 ≤ j))
      (omega arith)

free_blocks_down-GivesBack_example :
    Returns
      (λ r t. GivesBack file_fs (4096 ∷ []) (block_list small_bytes small_node 0 2) t)
      (free_blocks_down 2 small_node file_fs)
free_blocks_down-GivesBack_example =
    free_blocks_down-GivesBack 2 file_fs (4096 ∷ []) small_node (small-Owns (λ j. j < 2))
      (omega arith)

pub small-IsFile : IsFile file_fs (4096 ∷ []) small_node 16384
small-IsFile = record {
  placed = small-IsPlaced;
  owns = small-Owns (λ j. 0 ≤ j);
  spared = small-IsSmall.spared;
}

truncate_node-Truncated_example :
    (5000 ≤ 100 → truncate_node 16384 small_node 100 file_fs ≡ ret (pos 0) file_fs)
    × (100 < 5000
        → Returns
            (λ r t. (r ≡ pos 0) × Truncated file_fs (4096 ∷ []) small_node 16384 100 t)
            (truncate_node 16384 small_node 100 file_fs))
truncate_node-Truncated_example =
    truncate_node-Truncated file_fs (4096 ∷ []) small_node 16384 100 small-IsFile (omega arith)
      (omega arith) (omega arith)
