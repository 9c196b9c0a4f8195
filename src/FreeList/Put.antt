-- ===== src/FreeList/Put.antt =====
-- A block joins the set of free blocks: at the end of a list, or in a slot of a list block.
use tyrant_fs.Base.{
  ℕ, zero, suc, none, ◌+◌, ◌*◌, ◌^◌, ◌≤◌, ◌<◌, ◌≡◌, refl, sym, ◌∙◌, ◌⊎◌, inl, inr, List, [], ◌∷◌,
  Bool-cases, arith, ◌==◌, ==→eq, replicate, length-replicate,
}
use tyrant_fs.Base.Bytes.{Memory, word, word_congr, store, le_bytes, length-le_bytes}
use tyrant_fs.Base.Store.{word-store_self, word-store_ne, word-store_zero, store_above, store_below}
use tyrant_fs.FreeList.FreeExec.{wipe, after_free}
use tyrant_fs.FreeList.Chain.{
  count, entries, members, Chain, Chain-congr, IsBlock, IsFreeList, SameBlocks, SameBlocks-of,
  members_congr, count-members, count-members-cons,
}
use tyrant_fs.FreeList.Head.{apart}
use tyrant_fs.FreeList.Slots.{occurs}

-- Into the free list `bs` of `f`, `block` was put, which makes the free list `bs'` of `g`.
pub record Put (f : Memory) (size : ℕ) (bs : List ℕ) (block : ℕ) (g : Memory) (bs' : List ℕ)
    : Type 0 where
  pub list : IsFreeList g size bs'
  pub rest : (x : ℕ) → count x (members g bs') ≡ occurs x block + count x (members f bs)
  pub kept :
      (x : ℕ)
      → 8 ≤ x
      → (x < block) ⊎ (block + 4096 ≤ x)
      → ((b : ℕ) → 0 < count b (members f bs) → (x < b) ⊎ (b + 4096 ≤ x))
      → g x ≡ f x

-- A block with no address in its slots.
entries-zero :
    (f : Memory) (b k i : ℕ)
    → ((p : ℕ) → p + 8 ≤ i + 8 * k → word f (b + p) ≡ 0)
    → entries f b k i ≡ []
unfolding entries
entries-zero f b zero i h = refl
entries-zero f b (suc k) i h =
    rw (h i (omega arith)) (entries-zero f b k (i + 8) (λ p q. h p (omega arith)))

module _ (f : Memory) (b : ℕ) where
  pub wipe_out : (x : ℕ) → (x < b) ⊎ (b + 4096 ≤ x) → wipe f b x ≡ f x
  unfolding wipe
  wipe_out x o = elim o [
    | inl p ↦ store_below f b (replicate 4096 0) x p
    | inr p ↦
        store_above f b (replicate 4096 0) x (omega (arith, length-replicate {0} {A = ℕ} 4096 0))
  ]

  pub word-wipe_out : (a : ℕ) → (a + 8 ≤ b) ⊎ (b + 4096 ≤ a) → word (wipe f b) a ≡ word f a
  word-wipe_out a o = word_congr (wipe f b) f a λ x p q. wipe_out x (ground arith)

  pub word-wipe : (p : ℕ) → p + 8 ≤ 4096 → word (wipe f b) (b + p) ≡ 0
  unfolding wipe
  word-wipe p h = word-store_zero f b 4096 (b + p) (omega arith) (omega arith)

  pub entries-wipe : entries (wipe f b) b 511 0 ≡ []
  entries-wipe = entries-zero (wipe f b) b 511 0 (λ p h. word-wipe p (omega arith))

module _ {f : Memory} {size block : ℕ} {bs : List ℕ} (v : IsFreeList f size bs)
    (ok : IsBlock size block) (fresh : count block (members f bs) ≡ 0) where
  pub Put-of :
      {g : Memory} {bs' : List ℕ}
      → Chain g (word g 0) bs'
      → ((x : ℕ) → count x (members g bs') ≡ occurs x block + count x (members f bs))
      → ((x : ℕ)
          → 8 ≤ x
          → (x < block) ⊎ (block + 4096 ≤ x)
          → ((b : ℕ) → 0 < count b (members f bs) → (x < b) ⊎ (b + 4096 ≤ x))
          → g x ≡ f x)
      → Put f size bs block g bs'
  Put-of c rest kept = record {
    list = record {
      chain = c;
      once = λ a. elim (Bool-cases (a == block)) [
        | inl e ↦ let at : a ≡ block = ==→eq a block e in rw at (ground (arith, rest block))
        | inr e ↦ ground (arith, rest a, v.once a)
      ];
      valid = λ a p. elim (Bool-cases (a == block)) [
        | inl e ↦ rw (==→eq a block e) ok
        | inr e ↦ v.valid a (ground (arith, rest a))
      ];
      small = v.small;
    };
    rest = rest;
    kept = kept;
  }

  -- The list blocks lie apart from the freed block.
  pub block_apart : (x : ℕ) → 0 < count x (members f bs) → (x + 4096 ≤ block) ⊎ (block + 4096 ≤ x)
  block_apart x p = apart (v.valid x p) ok λ e. absurd (omega (arith, rw e at p))

  block_same :
      (g : Memory)
      → ((x : ℕ) → 8 ≤ x → (x < block) ⊎ (block + 4096 ≤ x) → g x ≡ f x)
      → SameBlocks f g bs
  block_same g h = SameBlocks-of f g bs λ x p i q.
      let in_members : 0 < count x (members f bs) = omega (arith, count-members f x bs) in
      let u = v.valid x in_members in
      let w = block_apart x in_members in
      word_congr f g (x + i) λ y r t. sym (h y (omega arith) (omega arith))

  -- The list was empty.
  pub Put-empty :
      bs ≡ [] → Put f size bs block (wipe (store f 0 (le_bytes 8 block)) block) (block ∷ [])
  unfolding members count
  Put-empty e =
      let g : Memory = wipe (store f 0 (le_bytes 8 block)) block in
      let first : word g 0 ≡ block =
        word-wipe_out (store f 0 (le_bytes 8 block)) block 0 (inl (omega arith))
        ∙ word-store_self f 0 block (omega (arith, v.small)) in
      let empty : entries g block 511 0 ≡ [] = entries-wipe (store f 0 (le_bytes 8 block)) block in
      Put-of
        (
          first,
          (λ z. absurd (omega arith)),
          word-wipe (store f 0 (le_bytes 8 block)) block 4088 (omega arith),
        )
        (λ x. rw (empty, e) (ground arith))
        (λ x p o h.
          wipe_out (store f 0 (le_bytes 8 block)) block x o
          ∙ store_above f 0 (le_bytes 8 block) x (omega (arith, length-le_bytes 8 block)))

  -- The first list block `b` is full.
  pub Put-full :
      (b : ℕ)
      → word f 0 ≡ b
      → b < 2 ^ 64
      → Chain f b bs
      → Put f size bs block (after_free f block b none) (block ∷ bs)
  unfolding after_free count
  Put-full b at small c =
      let w : Memory = wipe f block in
      let h : Memory = store w (block + 4088) (le_bytes 8 b) in
      let g : Memory = store h 0 (le_bytes 8 block) in
      let first : word g 0 ≡ block = word-store_self h 0 block (omega (arith, v.small)) in
      let above : (a : ℕ) → 8 ≤ a → word g a ≡ word h a =
        λ a p. word-store_ne h 0 block a (inr (omega arith)) in
      let link : word g (block + 4088) ≡ b =
        above (block + 4088) (omega arith) ∙ word-store_self w (block + 4088) b small in
      let slot : (p : ℕ) → p + 8 ≤ 4088 → word g (block + p) ≡ 0 = λ p q.
        above (block + p) (omega arith)
        ∙ word-store_ne w (block + 4088) b (block + p) (inl (omega arith))
        ∙ word-wipe f block p (omega arith) in
      let empty : entries g block 511 0 ≡ [] = entries-zero g block 511 0 slot in
      let out : (x : ℕ) → 8 ≤ x → (x < block) ⊎ (block + 4096 ≤ x) → g x ≡ f x = λ x p o.
        store_above h 0 (le_bytes 8 block) x (omega (arith, length-le_bytes 8 block)) ∙ elim o [
          | inl q ↦
              store_below w (block + 4088) (le_bytes 8 b) x (omega arith)
              ∙ wipe_out f block x (inl q)
          | inr q ↦
              store_above w (block + 4088) (le_bytes 8 b) x (omega (arith, length-le_bytes 8 b))
              ∙ wipe_out f block x (inr q)
        ] in
      let same : SameBlocks f g bs = block_same g out in
      Put-of (first, (λ z. absurd (omega arith)), rw link (Chain-congr f g b bs same c))
        (λ x.
          count-members-cons g x block bs
          ∙ rw (empty, members_congr f g bs same) (ground (arith, ok.behind)))
        (λ x p o q. out x p o)
