-- ===== src/Tests/Inode.antt =====
-- An inode, and the theorems on inodes at it.
use tyrant_fs.Base.{ℕ, ◌≡◌, refl, arith}
use tyrant_fs.Base.Int.{pos}
use tyrant_fs.Device.Command.{Returns}
use tyrant_fs.Inode.{
  head_values, tail_values, fetch_inode, commit_inode, free_inode, allocate_inode,
}
use tyrant_fs.Inode.Codec.{IsNode}
use tyrant_fs.Inode.Io.{inode_at, Apart, fetch_inode-commit_inode, free_inode_lem}
use tyrant_fs.Inode.Search.{FirstFree, OnlyAt, HasTable, allocate_inode-FirstFree}
use tyrant_fs.Tests.{small_fs, small_node}

pub small_node-IsNode : IsNode small_node
unfolding head_values tail_values
small_node-IsNode = record {
  head = (
    omega arith,
    (
      omega arith,
      (
        omega arith,
        (
          omega arith,
          (
            omega arith,
            (
              omega arith,
              (
                omega arith,
                (
                  omega arith,
                  (omega arith, (omega arith, (omega arith, (omega arith, (omega arith, tt))))),
                ),
              ),
            ),
          ),
        ),
      ),
    ),
  );
  direct = (
    omega arith,
    (
      omega arith,
      (
        omega arith,
        (
          omega arith,
          (
            omega arith,
            (
              omega arith,
              (
                omega arith,
                (omega arith, (omega arith, (omega arith, (omega arith, (omega arith, tt))))),
              ),
            ),
          ),
        ),
      ),
    ),
  );
  last = (omega arith, (omega arith, (omega arith, (omega arith, (omega arith, tt)))));
}

fetch_inode-commit_inode_example :
    Returns
      (λ r t.
        (r ≡ pos 208)
        × Returns (λ m u. (m ≡ small_node) × (u.byte ≡ t.byte)) (fetch_inode 4352 small_node t)
        × ((other : ℕ) → Apart 4352 other → inode_at t.byte other ≡ inode_at small_fs.byte other))
      (commit_inode small_node 4352 small_fs)
fetch_inode-commit_inode_example =
    fetch_inode-commit_inode small_fs 4352 small_node small_node (omega arith) (omega arith)
      small_node-IsNode small_node-IsNode

free_inode_lem_example :
    Returns
      (λ r t.
        (r ≡ pos 0)
        × ((inode_at t.byte 4096).mode ≡ 0)
        × ((other : ℕ) → Apart 4096 other → inode_at t.byte other ≡ inode_at small_fs.byte other))
      (free_inode 4096 small_fs)
free_inode_lem_example = free_inode_lem small_fs 4096 (omega arith) (omega arith)

has_table : HasTable small_fs
has_table = record { aligned = omega arith; inside = omega arith }

allocate_inode-FirstFree_example :
    Returns (λ a t. FirstFree small_fs 4096 a × OnlyAt small_fs t) (allocate_inode small_fs)
allocate_inode-FirstFree_example = allocate_inode-FirstFree small_fs has_table refl (omega arith)
