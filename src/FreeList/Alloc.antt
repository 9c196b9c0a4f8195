-- ===== src/FreeList/Alloc.antt =====
-- `allocate_block` takes one block out of the set of free blocks.
use tyrant_fs.Base.{
  ℕ, Option, none, some, ◌+◌, ◌≤◌, ◌<◌, ◌≡◌, refl, ap, ◌∙◌, ◌≢◌, ◌⊎◌, inl, inr, List, [], ◌∷◌,
  Bool-cases, arith, ◌==◌, ==→eq, ==→ne, eq→==, ne→==,
}
use tyrant_fs.Base.Bytes.{Memory, word, store, le_bytes, length-le_bytes}
use tyrant_fs.Base.Store.{word-store_self, word-store_ne, store_above, store_below}
use tyrant_fs.Base.{length}
use tyrant_fs.FreeList.Exec.{first_used, slot_pure, after_pure, alloc_pure}
use tyrant_fs.FreeList.Chain.{
  count, entries, members, Chain, Chain-congr, IsFreeList, SameBlocks, members_congr,
  count-members-cons,
}
use tyrant_fs.FreeList.Head.{
  IsFreeList-sub, head-IsBlock, head_member, Chain-zero, next_small, tail_same,
}
use tyrant_fs.FreeList.Slots.{
  occurs, first_used-none, first_used-last, first_used-slot, entries-slot,
}

-- From the free list `bs` of `f`, `a` was taken, which leaves the free list `bs'` of `g`.
pub record Taken (f : Memory) (size : ℕ) (bs : List ℕ) (a : ℕ) (g : Memory) (bs' : List ℕ)
    : Type 0 where
  pub list : IsFreeList g size bs'
  pub rest : (x : ℕ) → count x (members f bs) ≡ occurs x a + count x (members g bs')
  pub found : (x : ℕ) → 0 < count x (members f bs) → a ≢ 0
  pub kept :
      (x : ℕ)
      → 8 ≤ x
      → ((b : ℕ) → 0 < count b (members f bs) → (x < b) ⊎ (b + 4096 ≤ x))
      → g x ≡ f x

Taken-of :
    {f g : Memory} {size : ℕ} {bs bs' : List ℕ} (a : ℕ)
    → IsFreeList f size bs
    → Chain g (word g 0) bs'
    → ((x : ℕ) → count x (members f bs) ≡ occurs x a + count x (members g bs'))
    → a ≢ 0
    → ((x : ℕ)
        → 8 ≤ x
        → ((b : ℕ) → 0 < count b (members f bs) → (x < b) ⊎ (b + 4096 ≤ x))
        → g x ≡ f x)
    → Taken f size bs a g bs'
Taken-of a v c rest ne kept = record {
  list = IsFreeList-sub v c (λ x. omega (arith, rest x));
  rest = rest;
  found = λ x p. ne;
  kept = kept;
}

module _ {f : Memory} {size b : ℕ} {bs : List ℕ} (v : IsFreeList f size (b ∷ bs)) where
  -- No address in the only list block: it is the last free block.
  Taken-last : first_used f b 512 0 ≡ none → Taken f size (b ∷ bs) b (store f 0 (le_bytes 8 0)) []
  unfolding members count
  Taken-last e =
      let r = first_used-none f b 511 0 e in
      let only : bs ≡ [] = Chain-zero f (word f (b + 4088)) bs r.1 (v.chain.2) in
      Taken-of b v (word-store_self f 0 0 (omega arith))
        (λ x. count-members-cons f x b bs ∙ rw (r.0, only) (ground (arith, v.chain.1))) v.chain.1
        (λ x p q. store_above f 0 (le_bytes 8 0) x (omega (arith, length-le_bytes 8 0)))

  -- An address in a slot before the last.
  Taken-slot :
      (j : ℕ)
      → first_used f b 512 0 ≡ some j
      → j ≢ 4088
      → Taken f size (b ∷ bs) (word f (b + j)) (store f (b + j) (le_bytes 8 0)) (b ∷ bs)
  Taken-slot j e ne =
      let w = head-IsBlock v in
      let (m, m_lt, at, used) = first_used-slot f b 512 0 {j = j} e in
      let g : Memory = store f (b + j) (le_bytes 8 0) in
      let len : length (le_bytes 8 0) ≡ 8 = length-le_bytes 8 0 in
      let out : (x : ℕ) → (x < b) ⊎ (b + 4096 ≤ x) → g x ≡ f x = λ x o. elim o [
        | inl p ↦ store_below f (b + j) (le_bytes 8 0) x (omega arith)
        | inr p ↦ store_above f (b + j) (le_bytes 8 0) x (omega arith)
      ] in
      let same : SameBlocks f g bs = tail_same v g (λ x p o. out x o) in
      let other : (p : ℕ) → (p + 8 ≤ j) ⊎ (j + 8 ≤ p) → word g (b + p) ≡ word f (b + p) =
        λ p o. word-store_ne f (b + j) 0 (b + p) (omega arith) in
      let first : word g 0 ≡ word f 0 = word-store_ne f (b + j) 0 0 (inl (omega arith)) in
      let gone : word g (b + j) ≡ 0 = word-store_self f (b + j) 0 (omega arith) in
      Taken-of (word f (b + j)) v
        (
          first ∙ v.chain.0,
          v.chain.1,
          rw (other 4088 (inr (omega arith)))
              (Chain-congr f g (word f (b + 4088)) bs same (v.chain.2)),
        )
        (λ x.
          let slot = entries-slot f b g x j 511 0 m at (omega arith) (λ p q r o. other p o) in
          omega (
            arith,
            count-members-cons f x b bs,
            count-members-cons g x b bs,
            rw gone at slot,
            ap (count x) (members_congr f g bs same),
          ))
        used (λ x p q. out x (q b (head_member v)))

  -- Only the last slot holds an address: the next list block becomes the first.
  Taken-next :
      first_used f b 512 0 ≡ some 4088
      → let g = store f (b + 4088) (le_bytes 8 0) in
        Taken f size (b ∷ bs) (word g 0) (store g 0 (le_bytes 8 (word f (b + 4088)))) bs
  unfolding count
  Taken-next e =
      let w = head-IsBlock v in
      let n : ℕ = word f (b + 4088) in
      let h : Memory = store f (b + 4088) (le_bytes 8 0) in
      let g : Memory = store h 0 (le_bytes 8 n) in
      let first : word h 0 ≡ b = word-store_ne f (b + 4088) 0 0 (inl (omega arith)) ∙ v.chain.0 in
      let empty : entries f b 511 0 ≡ [] = first_used-last f b 511 0 e in
      let out : (x : ℕ) → 8 ≤ x → (x < b) ⊎ (b + 4096 ≤ x) → g x ≡ f x = λ x p o.
        store_above h 0 (le_bytes 8 n) x (omega (arith, length-le_bytes 8 n)) ∙ elim o [
          | inl q ↦ store_below f (b + 4088) (le_bytes 8 0) x (omega arith)
          | inr q ↦ store_above f (b + 4088) (le_bytes 8 0) x (omega (arith, length-le_bytes 8 0))
        ] in
      let same : SameBlocks f g bs = tail_same v g out in
      let start : word g 0 ≡ n = word-store_self h 0 n (next_small v) in
      rw first (
        Taken-of b v (rw start (Chain-congr f g n bs same (v.chain.2)))
          (λ x.
            count-members-cons f x b bs
            ∙ rw (empty, members_congr f g bs same) (ground (arith, v.chain.1)))
          v.chain.1 (λ x p q. out x p (q b (head_member v))))

Taken-none : {f : Memory} {size : ℕ} → IsFreeList f size [] → Taken f size [] 0 f []
unfolding members count
Taken-none v = record {
  list = v;
  rest = λ x. refl;
  found = λ x p. absurd (omega arith);
  kept = λ x p q. refl;
}

-- `allocate_block` on a well-formed free list: it returns 0 exactly when no block is free; else it
-- takes one free block out of the set, and changes no byte outside the superblock and free blocks.
pub alloc_pure-Taken :
    (f : Memory) (size : ℕ) (bs : List ℕ)
    → IsFreeList f size bs
    → let (a, g) = alloc_pure f in (bs' : List ℕ) × Taken f size bs a g bs'
unfolding alloc_pure after_pure slot_pure
alloc_pure-Taken f size [] v = rw (eq→== (word f 0) 0 (v.chain)) ([], Taken-none v)
alloc_pure-Taken f size (b ∷ bs) v =
    rw (v.chain.0, ne→== b 0 (v.chain.1)) (after (first_used f b 512 0) refl)
  where
    after :
        (o : Option ℕ)
        → first_used f b 512 0 ≡ o
        → let (a, g) = after_pure f b o in (bs' : List ℕ) × Taken f size (b ∷ bs) a g bs'
    after none e = ([], Taken-last v e)
    after (some j) e = elim (Bool-cases (j == 4088)) [
      | inl h ↦ let at : j ≡ 4088 = ==→eq j 4088 h in rw (at) (bs, Taken-next v (e ∙ ap some at))
      | inr h ↦ rw h (b ∷ bs, Taken-slot v j e (==→ne j 4088 h))
    ]
