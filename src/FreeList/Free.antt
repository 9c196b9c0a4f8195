-- ===== src/FreeList/Free.antt =====
-- `free_block` puts one block into the set of free blocks.
use tyrant_fs.Base.{
  ℕ, Option, none, some, ◌+◌, ◌≤◌, ◌<◌, ◌≡◌, refl, ap, ◌∙◌, ◌≢◌, ◌⊎◌, inl, inr, List, [], ◌∷◌,
  Bool-cases, arith, ◌==◌, ==→eq, ==→ne, eq→==, ne→==,
}
use tyrant_fs.Base.Bytes.{Memory, word, store, le_bytes, length-le_bytes}
use tyrant_fs.Base.Store.{word-store_self, word-store_ne, store_above, store_below}
use tyrant_fs.FreeList.FreeExec.{first_empty, wipe, put_pure, after_free, free_pure}
use tyrant_fs.FreeList.Chain.{
  count, entries, members, Chain-congr, IsBlock, IsFreeList, SameBlocks, members_congr,
  count-members-cons,
}
use tyrant_fs.FreeList.Head.{head-IsBlock, head_member, Chain-zero, tail_same}
use tyrant_fs.FreeList.Slots.{first_empty-slot, entries-slot, entries-later}
use tyrant_fs.FreeList.Put.{
  Put, wipe_out, word-wipe_out, word-wipe, entries-wipe, Put-of, block_apart, Put-empty, Put-full,
}

module _ {f : Memory} {size block b : ℕ} {bs : List ℕ} (v : IsFreeList f size (b ∷ bs))
    (ok : IsBlock size block) (fresh : count block (members f (b ∷ bs)) ≡ 0) where
  head_apart_block : (b + 4096 ≤ block) ⊎ (block + 4096 ≤ b)
  head_apart_block = elim (block_apart v ok fresh b (head_member v)) [
    | inl p ↦ inl p
    | inr p ↦ inr p
  ]

  -- An empty slot before the last.
  Put-before_last :
      (j : ℕ)
      → first_empty f b 512 0 ≡ some j
      → j ≢ 4088
      → Put f size (b ∷ bs) block (store f (b + j) (le_bytes 8 block)) (b ∷ bs)
  Put-before_last j e ne =
      let w = head-IsBlock v in
      let (m, m_lt, at, unused) = first_empty-slot f b 512 0 {j = j} e in
      let g : Memory = store f (b + j) (le_bytes 8 block) in
      let out : (x : ℕ) → (x < b) ⊎ (b + 4096 ≤ x) → g x ≡ f x = λ x o. elim o [
        | inl p ↦ store_below f (b + j) (le_bytes 8 block) x (omega arith)
        | inr p ↦
            store_above f (b + j) (le_bytes 8 block) x (omega (arith, length-le_bytes 8 block))
      ] in
      let same : SameBlocks f g bs = tail_same v g (λ x p o. out x o) in
      let other : (p : ℕ) → (p + 8 ≤ j) ⊎ (j + 8 ≤ p) → word g (b + p) ≡ word f (b + p) =
        λ p o. word-store_ne f (b + j) block (b + p) (omega arith) in
      let first : word g 0 ≡ word f 0 = word-store_ne f (b + j) block 0 (inl (omega arith)) in
      let new : word g (b + j) ≡ block = word-store_self f (b + j) block (omega (arith, v.small)) in
      Put-of v ok fresh
        (
          first ∙ v.chain.0,
          v.chain.1,
          rw (other 4088 (inr (omega arith)))
              (Chain-congr f g (word f (b + 4088)) bs same (v.chain.2)),
        )
        (λ x.
          let slot = entries-slot f b g x j 511 0 m at (omega arith) (λ p q r o. other p o) in
          omega (
            arith,
            count-members-cons f x b bs,
            count-members-cons g x b bs,
            rw (new, unused) at slot,
            ap (count x) (members_congr f g bs same),
          ))
        (λ x p o q. out x (q b (head_member v)))

  -- Only the last slot is empty: the freed block becomes the next list block.
  Put-last :
      first_empty f b 512 0 ≡ some 4088
      → Put f size
          (b ∷ bs)
          block
          (wipe (store f (b + 4088) (le_bytes 8 block)) block)
          (b ∷ block ∷ [])
  unfolding members count
  Put-last e =
      let w = head-IsBlock v in
      let away = head_apart_block in
      let (m, m_lt, at, unused) = first_empty-slot f b 512 0 {j = 4088} e in
      let h : Memory = store f (b + 4088) (le_bytes 8 block) in
      let g : Memory = wipe h block in
      let only : bs ≡ [] = Chain-zero f (word f (b + 4088)) bs unused (v.chain.2) in
      let link : word g (b + 4088) ≡ block =
        word-wipe_out h block (b + 4088) (omega arith)
        ∙ word-store_self f (b + 4088) block (omega (arith, v.small)) in
      let first : word g 0 ≡ b =
        word-wipe_out h block 0 (inl (omega arith))
        ∙ word-store_ne f (b + 4088) block 0 (inl (omega arith))
        ∙ v.chain.0 in
      let old : entries g b 511 0 ≡ entries f b 511 0 = entries-later f b g 511 0 λ p q r.
        word-wipe_out h block (b + p) (omega arith)
        ∙ word-store_ne f (b + 4088) block (b + p) (inl (omega arith)) in
      let empty : entries g block 511 0 ≡ [] = entries-wipe h block in
      Put-of v ok fresh
        (
          first,
          v.chain.1,
          (link, (λ z. absurd (omega (arith, ok.behind))), word-wipe h block 4088 (omega arith)),
        )
        (λ x.
          count-members-cons g x b (block ∷ [])
          ∙ rw (old, empty)
              (ground (
                arith,
                count-members-cons f x b bs,
                ok.behind,
                ap (λ t. count x (members f t)) only,
              )))
        (λ x p o q. wipe_out h block x o ∙ elim (q b (head_member v)) [
          | inl r ↦ store_below f (b + 4088) (le_bytes 8 block) x (omega arith)
          | inr r ↦
              store_above f (b + 4088) (le_bytes 8 block) x (omega (arith, length-le_bytes 8 block))
        ])

-- `free_block` of a block that is not free, on a well-formed free list: the block joins the set of
-- free blocks, the list stays well formed, and no byte outside the superblock, the freed block and
-- the free blocks changes.
pub free_pure-Put :
    (f : Memory) (size block : ℕ) (bs : List ℕ)
    → IsFreeList f size bs
    → IsBlock size block
    → count block (members f bs) ≡ 0
    → (bs' : List ℕ) × Put f size bs block (free_pure f block) bs'
unfolding free_pure after_free put_pure
free_pure-Put f size block [] v ok fresh =
    rw (eq→== (word f 0) 0 (v.chain)) (block ∷ [], Put-empty v ok fresh refl)
free_pure-Put f size block (b ∷ bs) v ok fresh =
    rw (v.chain.0, ne→== b 0 (v.chain.1)) (after (first_empty f b 512 0) refl)
  where
    after :
        (o : Option ℕ)
        → first_empty f b 512 0 ≡ o
        → (bs' : List ℕ) × Put f size (b ∷ bs) block (after_free f block b o) bs'
    after none e = (
      block ∷ b ∷ bs,
      Put-full v ok fresh b v.chain.0 (omega (arith, (head-IsBlock v).inside, v.small))
          (refl, v.chain.1, v.chain.2),
    )
    after (some j) e = elim (Bool-cases (j == 4088)) [
      | inl h ↦
          let at : j ≡ 4088 = ==→eq j 4088 h in
          rw at (b ∷ block ∷ [], Put-last v ok fresh (e ∙ ap some at))
      | inr h ↦ rw h (b ∷ bs, Put-before_last v ok fresh j e (==→ne j 4088 h))
    ]
