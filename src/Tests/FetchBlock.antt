-- ===== src/Tests/FetchBlock.antt =====
-- The block of the small directory, by its index.
use tyrant_fs.Base.{◌≤◌, ◌<◌, ◌≡◌, [], ◌∷◌, false, arith, ◌^◌, ◌-◌}
use tyrant_fs.Device.Command.{Returns}
use tyrant_fs.Inode.Io.{inode_at}
use tyrant_fs.Inode.Search.{OnlyAt}
use tyrant_fs.BlockMap.{dbl_end}
use tyrant_fs.BlockMap.Address.{block_at}
use tyrant_fs.FetchBlock.{fetch_block}
use tyrant_fs.FetchBlock.Levels.{Gives, fetch_block_lem}
use tyrant_fs.Tests.Removal.{dir_fs, dir_bytes, dir_inode, dir-IsPlaced}

fetch_block_lem_example :
    ((inode_at dir_bytes 16384).blocks ≤ 0
      → Returns
          (λ r t. (r ≡ (false, 5 ∷ [])) × OnlyAt dir_fs t)
          (fetch_block (λ x. 2 ^ 64 - x) 16384 0 (5 ∷ []) dir_fs))
    × (0 < (inode_at dir_bytes 16384).blocks
        → 0 < 262156
        → Returns
            (Gives dir_fs (block_at dir_bytes (inode_at dir_bytes 16384) 0))
            (fetch_block (λ x. 2 ^ 64 - x) 16384 0 (5 ∷ []) dir_fs))
    × (0 < (inode_at dir_bytes 16384).blocks
        → 262156 ≤ 0
        → 0 < dbl_end
        → Returns
            (λ r t. (r ≡ (false, 5 ∷ [])) × OnlyAt dir_fs t)
            (fetch_block (λ x. 2 ^ 64 - x) 16384 0 (5 ∷ []) dir_fs))
fetch_block_lem_example =
    fetch_block_lem (λ x. 2 ^ 64 - x) dir_fs 16384 0 (5 ∷ []) (omega arith) (omega arith)
      (rw dir_inode (dir-IsPlaced.mapped)) (omega arith)
