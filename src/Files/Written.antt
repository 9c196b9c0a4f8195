-- ===== src/Files/Written.antt =====
-- What a write into a file does to the bytes of the device, in one piece or in several.
use tyrant_fs.Base.{
  ℕ, ◌+◌, ◌-◌, ◌*◌, ◌≤◌, ◌<◌, ◌≡◌, ◌≢◌, refl, sym, ap, ◌∙◌, ◌⊎◌, inl, inr, List, [], ◌∷◌, arith,
  Bool-cases, ltb, ltb→lt, get_or,
}
use tyrant_fs.Base.Bytes.{Memory, word_congr}
use tyrant_fs.Inode.{Node}
use tyrant_fs.FreeList.Chain.{IsBlock, SameBlock}
use tyrant_fs.FreeList.Head.{apart}
use tyrant_fs.BlockMap.Address.{block_at, tables, All}
use tyrant_fs.Files.Contents.{IsMapped, contents, KeepsTables, All-map, All-zip}

-- From the bytes `f` to the bytes `g`, the `count` bytes of the file from `start` on became those of
-- `buff` from `from` on; nothing else of the file changed, nor any byte outside its blocks.
pub record Written (f g : Memory) (n : Node) (start count : ℕ) (buff : List ℕ) (from : ℕ)
    : Type 0 where
  pub address : (i : ℕ) → i < n.blocks → block_at g n i ≡ block_at f n i
  pub inside :
      (x : ℕ) → start ≤ x → x < start + count → contents g n x ≡ get_or buff (from + (x - start)) 0
  pub outside :
      (x : ℕ)
      → x < n.blocks * 4096
      → (x < start) ⊎ (start + count ≤ x)
      → contents g n x ≡ contents f n x
  pub elsewhere :
      (y : ℕ)
      → ((i : ℕ) → i < n.blocks → (y < block_at f n i) ⊎ (block_at f n i + 4096 ≤ y))
      → g y ≡ f y

pub Written-none :
    (f : Memory) (n : Node) (start : ℕ) (buff : List ℕ) (from : ℕ) → Written f f n start 0 buff from
Written-none f n start buff from = record {
  address = λ i h. refl;
  inside = λ x p q. absurd (omega arith);
  outside = λ x p o. refl;
  elsewhere = λ y o. refl;
}

-- A write, and one that goes on behind it.
pub Written-append :
    (f g h : Memory) (n : Node) (start m next count total : ℕ) (buff : List ℕ) (from : ℕ)
    → Written f g n start m buff from
    → Written g h n next count buff (from + m)
    → (next ≡ start + m) ⊎ (count ≡ 0)
    → total ≡ m + count
    → start + total ≤ n.blocks * 4096
    → Written f h n start total buff from
Written-append f g h n start m next count total buff from a b e sum fits = record {
  address = λ i l. b.address i l ∙ a.address i l;
  inside = λ x p q. elim (Bool-cases (ltb x (start + m))) [
    | inl first ↦
        let l = ltb→lt x (start + m) first in
        b.outside x (omega arith) (omega arith) ∙ a.inside x p l
    | inr second ↦
        let l : start + m ≤ x = ground (arith, second) in
        b.inside x (omega arith) (omega arith) ∙ ap (λ i. get_or buff i 0) (omega arith)
  ];
  outside = λ x p o. b.outside x p (omega arith) ∙ a.outside x p (omega arith);
  elsewhere = λ y o. b.elsewhere y (λ i l. rw (a.address i l) (o i l)) ∙ a.elsewhere y o;
}

-- A write within the blocks leaves the index blocks as they are.
pub Written-KeepsTables :
    {f g : Memory} {size : ℕ} {n : Node} {start count : ℕ} {buff : List ℕ} {from : ℕ}
    → IsMapped f size n
    → Written f g n start count buff from
    → KeepsTables f g n
Written-KeepsTables {f} {g} {size} {n} v w j l =
    All-map (λ b. IsBlock size b × ((i : ℕ) → i < n.blocks → b ≢ block_at f n i)) (SameBlock f g)
      (tables f n j)
      (λ b p o q. word_congr f g (b + o) λ x r t.
        sym (w.elsewhere x λ i h. let a = apart p.0 (v.blocks_ok i h) (p.1 i h) in omega arith))
      (All-zip _ _ (tables f n j) (v.tables_ok j l)
        (All-pi (tables f n j) λ i h. v.no_table i j h l))
  where
    All-pi :
        (bs : List ℕ)
        → ((i : ℕ) → i < n.blocks → All (λ b. b ≢ block_at f n i) bs)
        → All (λ b. (i : ℕ) → i < n.blocks → b ≢ block_at f n i) bs
    All-pi [] h = tt
    All-pi (b ∷ bs) h = (λ i l. (h i l).0, All-pi bs λ i l. (h i l).1)
