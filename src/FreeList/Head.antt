-- ===== src/FreeList/Head.antt =====
-- The first list block of a well-formed free list, and the list blocks behind it.
use tyrant_fs.Base.{ℕ, ◌^◌, ◌+◌, ◌≤◌, ◌<◌, ◌≡◌, sym, ◌≢◌, ◌⊎◌, List, [], ◌∷◌, refl, ◌∙◌, ◌∷◌, arith}
use tyrant_fs.Base.Bytes.{Memory, word, word_congr}
use tyrant_fs.FreeList.Chain.{
  count, entries, members, Chain, IsBlock, IsFreeList, SameBlocks, SameBlocks-of, count-members,
  count-members-cons,
}

-- What is left of a free list is one, if it is chained.
pub IsFreeList-sub :
    {f g : Memory} {size : ℕ} {bs bs' : List ℕ}
    → IsFreeList f size bs
    → Chain g (word g 0) bs'
    → ((x : ℕ) → count x (members g bs') ≤ count x (members f bs))
    → IsFreeList g size bs'
IsFreeList-sub v c h = record {
  chain = c;
  once = λ a. omega (arith, h a, v.once a);
  valid = λ a p. v.valid a (omega (arith, h a));
  small = v.small;
}

-- Two different blocks do not overlap.
pub apart :
    {size a b : ℕ} → IsBlock size a → IsBlock size b → a ≢ b → (a + 4096 ≤ b) ⊎ (b + 4096 ≤ a)
apart {a = a} {b = b} u w ne = ground arith

pub Chain-zero : (f : Memory) (b : ℕ) (bs : List ℕ) → b ≡ 0 → Chain f b bs → bs ≡ []
Chain-zero f b [] z c = refl
Chain-zero f b (x ∷ bs) z c = absurd (c.1 (sym (c.0) ∙ z))

module _ {f : Memory} {size b : ℕ} {bs : List ℕ} (v : IsFreeList f size (b ∷ bs)) where
  pub head-IsBlock : IsBlock size b
  head-IsBlock = v.valid b (ground (arith, count-members-cons f b b bs))

  pub head_once : (count b (entries f b 511 0) ≡ 0) × (count b (members f bs) ≡ 0)
  head_once = ground (arith, count-members-cons f b b bs, v.once b)

  pub tail_valid : (x : ℕ) → 0 < count x (members f bs) → IsBlock size x
  tail_valid x p = v.valid x (omega (arith, count-members-cons f x b bs))

  pub entry_valid : (x : ℕ) → 0 < count x (entries f b 511 0) → IsBlock size x
  entry_valid x p = v.valid x (omega (arith, count-members-cons f x b bs))

  pub head_member : 0 < count b (members f (b ∷ bs))
  head_member = ground (arith, count-members-cons f b b bs)

  -- The other list blocks lie apart from the first.
  pub head_apart : (x : ℕ) → 0 < count x bs → (x + 4096 ≤ b) ⊎ (b + 4096 ≤ x)
  head_apart x p =
      let q : 0 < count x (members f bs) = omega (arith, count-members f x bs) in
      apart (tail_valid x q) head-IsBlock λ e. absurd (omega (arith, head_once.1, (rw e at q)))

  -- A write below the blocks and in the first list block spares the others.
  pub tail_same :
      (g : Memory) → ((x : ℕ) → 8 ≤ x → (x < b) ⊎ (b + 4096 ≤ x) → g x ≡ f x) → SameBlocks f g bs
  tail_same g h = SameBlocks-of f g bs λ x p i q.
      let u = tail_valid x (omega (arith, count-members f x bs)) in
      let w = head_apart x p in
      word_congr f g (x + i) λ y r t. sym (h y (omega arith) (omega arith))

  -- The address of the next list block fits in 64 bits.
  pub next_small : word f (b + 4088) < 2 ^ 64
  next_small = small bs (v.chain.2) tail_valid
    where
      small :
          (xs : List ℕ)
          → Chain f (word f (b + 4088)) xs
          → ((x : ℕ) → 0 < count x (members f xs) → IsBlock size x)
          → word f (b + 4088) < 2 ^ 64
      small [] c valid = omega arith
      small (x ∷ xs) c valid =
          let u = valid x (ground (arith, count-members-cons f x x xs)) in omega (arith, v.small)
