-- ===== src/FreeList/Frame.antt =====
-- Writes that spare the superblock's first word and the free blocks keep the free list.
use tyrant_fs.Base.{ℕ, ◌+◌, ◌≤◌, ◌<◌, ◌≡◌, sym, ◌⊎◌, inl, inr, List, arith, length}
use tyrant_fs.Base.Bytes.{Memory, word, word_congr, store}
use tyrant_fs.Base.Store.{store_below, store_above}
use tyrant_fs.FreeList.Chain.{
  count, count-members, members, members_congr, Chain-congr, IsFreeList, SameBlocks, SameBlocks-of,
}

-- `g` has the bytes of `f` at the first word and in the free blocks.
pub record KeepsFree (f g : Memory) (bs : List ℕ) : Type 0 where
  pub first : (x : ℕ) → x < 8 → g x ≡ f x
  pub blocks : (b x : ℕ) → 0 < count b (members f bs) → b ≤ x → x < b + 4096 → g x ≡ f x

module _ {f g : Memory} {size : ℕ} {bs : List ℕ} (v : IsFreeList f size bs)
    (k : KeepsFree f g bs) where
  kept_words : SameBlocks f g bs
  kept_words = SameBlocks-of f g bs λ b p i q.
      word_congr f g (b + i) λ x r t.
        sym (k.blocks b x (omega (arith, count-members f b bs)) (omega arith) (omega arith))

  pub members-KeepsFree : members g bs ≡ members f bs
  members-KeepsFree = sym (members_congr f g bs kept_words)

  -- The same list blocks make up a well-formed free list, with the same free blocks.
  pub IsFreeList-KeepsFree : IsFreeList g size bs
  IsFreeList-KeepsFree =
      let start : word g 0 ≡ word f 0 = word_congr g f 0 λ x p q. k.first x q in
      record {
        chain = (rw start (Chain-congr f g (word f 0) bs kept_words v.chain));
        once = (rw members-KeepsFree v.once);
        valid = (rw members-KeepsFree v.valid);
        small = v.small;
      }

-- A write of a range apart from the first word and the free blocks.
pub store-KeepsFree :
    (f : Memory) (a : ℕ) (xs : List ℕ) (bs : List ℕ) (n : ℕ)
    → length xs ≤ n
    → 8 ≤ a
    → ((b : ℕ) → 0 < count b (members f bs) → (a + n ≤ b) ⊎ (b + 4096 ≤ a))
    → KeepsFree f (store f a xs) bs
store-KeepsFree f a xs bs n h low apart = record {
  first = λ x p. store_below f a xs x (omega arith);
  blocks = λ b x p q r. elim (apart b p) [
    | inl s ↦ store_above f a xs x (omega arith)
    | inr s ↦ store_below f a xs x (omega arith)
  ];
}
