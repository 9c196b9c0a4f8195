-- ===== src/Unlink/Blocks.antt =====
-- The blocks of a removed file go to the free list (`free_blocks_up`, `free_blocks_down`).
use tyrant_fs.Base.{ℕ, zero, suc, ◌+◌, ◌≤◌, ◌<◌, ◌≡◌, ap, List, [], ◌∷◌, arith}
use tyrant_fs.Base.Bytes.{Memory}
use tyrant_fs.Device.{Fs}
use tyrant_fs.Device.Command.{Returns, Returns-mono}
use tyrant_fs.Inode.{Node}
use tyrant_fs.FreeList.Chain.{count}
use tyrant_fs.BlockMap.Address.{block_at}
use tyrant_fs.Unlink.{free_blocks_up, free_blocks_down}
use tyrant_fs.Files.Contents.{same_address}
use tyrant_fs.Unlink.Owned.{
  Owns, Gained, block_list, release-Freed, Freed-KeepsTables, Freed-Owns, Gained-none, Gained-cons,
  Gained-count, block_list_congr, count-block_list-snoc,
}

abbrev pub GivesBack : Fs → List ℕ → List ℕ → Fs → Type 0
GivesBack s bs freed t = (bs' : List ℕ) × Gained s bs freed t bs'

-- For a file whose blocks from index `i` on and whose index blocks are not free, on an open device
-- with a well-formed free list, the loop of `tfs_unlink` over these blocks ends, and the free list
-- has each of them, once, besides the blocks that it had, and is well formed. It changes only blocks
-- that are free at its end and the superblock's first word.
pub free_blocks_up-GivesBack :
    (k i : ℕ) (s : Fs) (bs : List ℕ) (n : Node)
    → Owns s bs n (λ j. i ≤ j)
    → i + k ≡ n.blocks
    → Returns (λ r t. GivesBack s bs (block_list s.byte n i k) t) (free_blocks_up k i n s)
unfolding free_blocks_up block_list
free_blocks_up-GivesBack zero i s bs n v e = (bs, Gained-none s bs v.formatted)
free_blocks_up-GivesBack (suc k) i s bs n v e =
    let h : i < n.blocks = omega arith in
    release-Freed s bs n (λ j. i ≤ j) v i (omega arith) h _ (free_blocks_up k (i + 1) n)
      λ t d.
        let keep = Freed-KeepsTables s bs n (λ j. i ≤ j) v i (omega arith) h t d in
        Returns-mono (λ r u. GivesBack t d.0 (block_list t.byte n (i + 1) k) u) _
          (free_blocks_up k (i + 1) n t)
          (free_blocks_up-GivesBack k (i + 1) t d.0 n
            (Freed-Owns s bs n (λ j. i ≤ j) v i (omega arith) h (λ j. i + 1 ≤ j) t d
              λ j q. (omega arith, omega arith))
            (omega arith))
          λ r u (bs', g).
            let same =
              block_list_congr s.byte t.byte n (i + 1) k (omega arith)
                (same_address t.byte v.mapped keep) in
            (
              bs',
              Gained-cons s t u bs bs' (block_at s.byte n i) _ d
                  (omega (arith, ((v.mapped).blocks_ok i h).behind)) (rw same at g),
            )

count-block_list-last :
    (f : Memory) (n : Node) (x k : ℕ)
    → count x (block_at f n k ∷ block_list f n 0 k) ≡ count x (block_list f n 0 (suc k))
unfolding count
count-block_list-last f n x k =
    let z : block_at f n (0 + k) ≡ block_at f n k = ap (block_at f n) (omega arith) in
    let r : count x (block_list f n 0 (suc k))
        ≡ count x (block_list f n 0 k) + count x (block_at f n k ∷ []) =
      (rw z at (count-block_list-snoc f n x 0 k)) in
    omega (arith, r)

-- For a file whose first `k` blocks and whose index blocks are not free, on an open device with a
-- well-formed free list, the loop of `sub_unlink` over these blocks ends, and the free list has each
-- of them, once, besides the blocks that it had, and is well formed. It changes only blocks that are
-- free at its end and the superblock's first word.
pub free_blocks_down-GivesBack :
    (k : ℕ) (s : Fs) (bs : List ℕ) (n : Node)
    → Owns s bs n (λ j. j < k)
    → k ≤ n.blocks
    → Returns (λ r t. GivesBack s bs (block_list s.byte n 0 k) t) (free_blocks_down k n s)
unfolding free_blocks_down block_list
free_blocks_down-GivesBack zero s bs n v l = (bs, Gained-none s bs v.formatted)
free_blocks_down-GivesBack (suc k) s bs n v l =
    let h : k < n.blocks = omega arith in
    release-Freed s bs n (λ j. j < suc k) v k (omega arith) h _ (free_blocks_down k n)
      λ t d.
        let keep = Freed-KeepsTables s bs n (λ j. j < suc k) v k (omega arith) h t d in
        Returns-mono (λ r u. GivesBack t d.0 (block_list t.byte n 0 k) u) _ (free_blocks_down k n t)
          (free_blocks_down-GivesBack k t d.0 n
            (Freed-Owns s bs n (λ j. j < suc k) v k (omega arith) h (λ j. j < k) t d
              λ j q. (omega arith, omega arith))
            (omega arith))
          λ r u (bs', g).
            let same =
              block_list_congr s.byte t.byte n 0 k (omega arith)
                (same_address t.byte v.mapped keep) in
            (
              bs',
              Gained-count s u bs bs' (block_at s.byte n k ∷ block_list s.byte n 0 k)
                  (block_list s.byte n 0 (suc k)) (λ x. count-block_list-last s.byte n x k)
                  (Gained-cons s t u bs bs' (block_at s.byte n k) _ d
                    (omega (arith, ((v.mapped).blocks_ok k h).behind)) (rw same at g)),
            )
