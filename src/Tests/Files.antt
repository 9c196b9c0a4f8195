-- ===== src/Tests/Files.antt =====
-- A file of two blocks on a device of seven.
use tyrant_fs.Base.{
  ℕ, ◌≤◌, ◌<◌, ◌≡◌, ◌⊎◌, inl, inr, refl, List, [], ◌∷◌, arith, take, zero, suc, ◌*◌, ◌-◌,
}
use tyrant_fs.Base.Int.{pos, to_int}
use tyrant_fs.Device.{Fs}
use tyrant_fs.Device.Command.{Returns, and_then}
use tyrant_fs.Inode.{fetch_new}
use tyrant_fs.Inode.Search.{OnlyAt}
use tyrant_fs.FreeList.Chain.{count, members, IsBlock}
use tyrant_fs.FreeList.Refine.{IsFormatted}
use tyrant_fs.BlockMap.{get_i_block}
use tyrant_fs.BlockMap.Address.{block_at, tables, get_i_block-block_at}
use tyrant_fs.Files.{read_node, write_node}
use tyrant_fs.Files.Contents.{IsMapped}
use tyrant_fs.Files.Placed.{IsPlaced, Off}
use tyrant_fs.Files.Small.{IsSmall}
use tyrant_fs.Files.RoundTrip.{read_node-write_node, read_node-write_node_small}
use tyrant_fs.Tests.{small_fs, small_bytes, small_node, some_env}
use tyrant_fs.Tests.Inode.{small_node-IsNode}
use tyrant_fs.Tests.FreeList.{small_members, small_IsFormatted}
use tyrant_fs.Inode.Io.{inode_at}

abbrev pub file_fs : Fs
file_fs = record small_fs { size = 28672 }

-- The blocks of the file.
pub small_blocks :
    (P : ℕ → Type 0) → P 20480 → P 24576 → (i : ℕ) → i < 2 → P (block_at small_bytes small_node i)
unfolding block_at
small_blocks P p q zero h = p
small_blocks P p q (suc zero) h = q
small_blocks P p q (suc (suc i)) h = absurd (omega arith)

pub small_tables : (i : ℕ) → i < 2 → tables small_bytes small_node i ≡ []
unfolding tables
small_tables zero h = refl
small_tables (suc zero) h = refl
small_tables (suc (suc i)) h = absurd (omega arith)

pub small-IsMapped : IsMapped small_bytes 28672 small_node
unfolding block_at
small-IsMapped = record {
  small = omega arith;
  reach = omega arith;
  tables_ok = λ i h. rw (small_tables i h) tt;
  blocks_ok =
      small_blocks (IsBlock 28672)
        (record { aligned = omega arith; behind = omega arith; inside = omega arith })
        (record { aligned = omega arith; behind = omega arith; inside = omega arith });
  distinct = small_distinct;
  no_table = λ i j h l. rw (small_tables j l) tt;
}
  where
    small_distinct :
        (i j : ℕ)
        → i < 2
        → j < 2
        → block_at small_bytes small_node i ≡ block_at small_bytes small_node j
        → i ≡ j
    small_distinct zero zero h l e = refl
    small_distinct zero (suc zero) h l e = absurd (omega arith)
    small_distinct (suc zero) zero h l e = absurd (omega arith)
    small_distinct (suc zero) (suc zero) h l e = refl
    small_distinct (suc (suc i)) j h l e = absurd (omega arith)
    small_distinct i (suc (suc j)) h l e = absurd (omega arith)

pub small-IsPlaced : IsPlaced small_bytes 28672 small_node 16384
small-IsPlaced = record {
  mapped = small-IsMapped;
  node = small_node-IsNode;
  behind = omega arith;
  inside = omega arith;
  off = small_blocks (Off 16384) (inl (omega arith)) (inl (omega arith));
  tables_off = λ i h. rw (small_tables i h) tt;
}

pub file-IsFormatted : IsFormatted file_fs (4096 ∷ [])
unfolding count
file-IsFormatted = record {
  room = omega arith;
  list = record {
    chain = (small_IsFormatted.list).chain;
    once = (small_IsFormatted.list).once;
    valid = λ a. rw small_members (λ p. ground arith);
    small = omega arith;
  };
}

pub small-IsSmall : IsSmall file_fs (4096 ∷ []) small_node 16384
unfolding count
small-IsSmall = record {
  placed = small-IsPlaced;
  few = omega arith;
  formatted = file-IsFormatted;
  spared = λ b p.
      let q : 0 < count b (4096 ∷ 8192 ∷ 12288 ∷ []) = (rw small_members at p) in
      inr (ground arith);
  used =
      small_blocks (λ b. count b (members small_bytes (4096 ∷ [])) ≡ 0)
        (rw small_members (ground arith)) (rw small_members (ground arith));
}

-- The same device with a clock that stands still.
abbrev pub steady_fs : Fs
steady_fs = record file_fs { env = record some_env { clock = λ t. 1000 } }

pub steady-IsSmall : IsSmall steady_fs (4096 ∷ []) small_node 16384
steady-IsSmall =
    let v = small-IsSmall in
    let f = v.formatted in
    record {
      placed = v.placed;
      few = v.few;
      formatted = record { room = f.room; list = f.list };
      spared = v.spared;
      used = v.used;
    }

get_i_block-block_at_example :
    Returns
      (λ x t. (x ≡ block_at small_bytes small_node 1) × OnlyAt file_fs t)
      (get_i_block small_node 1 file_fs)
get_i_block-block_at_example =
    get_i_block-block_at small_node 1 file_fs (omega arith) (omega arith)
      (rw (small_tables 1 (omega arith)) tt) (omega arith)

read_node-write_node_example :
    Returns
      (λ r t.
        (r ≡ to_int 3)
        × Returns
            (λ q u. q ≡ (to_int 3, 7 ∷ 8 ∷ 9 ∷ []))
            (and_then (fetch_new 16384 t) (λ m. read_node 16384 m 3 4094)))
      (write_node 16384 small_node (7 ∷ 8 ∷ 9 ∷ []) 3 4094 steady_fs)
read_node-write_node_example =
    read_node-write_node steady_fs small_node 16384 (7 ∷ 8 ∷ 9 ∷ []) 3 4094 small-IsPlaced
      (λ k. omega arith) (omega arith) (omega arith) (omega arith) (omega arith) (omega arith)

read_node-write_node_small_example :
    Returns
      (λ r t.
        (wrote : ℕ) × (left : List ℕ) × (r ≡ pos wrote)
        × IsFormatted t left
        × ((wrote ≡ 3)
            ⊎ ((wrote ≤ 3)
                × (wrote ≡ (inode_at t.byte 16384).blocks * 4096 - 12287)
                × ((b : ℕ) → count b (members t.byte left) ≡ 0)))
        × (0 < wrote
            → Returns
                (λ q u. q ≡ (pos wrote, take wrote (7 ∷ 8 ∷ 9 ∷ [])))
                (and_then (fetch_new 16384 t) (λ m. read_node 16384 m wrote 12287))))
      (write_node 16384 small_node (7 ∷ 8 ∷ 9 ∷ []) 3 12287 steady_fs)
read_node-write_node_small_example =
    read_node-write_node_small steady_fs (4096 ∷ []) small_node 16384 (7 ∷ 8 ∷ 9 ∷ []) 3 12287
      steady-IsSmall (λ k. omega arith) (omega arith) (omega arith) (omega arith) (omega arith)
