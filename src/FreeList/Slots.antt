-- ===== src/FreeList/Slots.antt =====
-- The slots of one list block: what the loops find, and what a change of one slot does.
use tyrant_fs.Base.{
  ℕ, zero, suc, none, some, ◌+◌, ◌*◌, ◌≤◌, ◌<◌, ◌≡◌, refl, ap, ◌∙◌, ◌≢◌, ◌⊎◌, inl, inr, [],
  Bool-cases, arith, ◌==◌, if◌then◌else◌, ==→eq, ==→ne,
}
use tyrant_fs.Base.Bytes.{Memory, word}
use tyrant_fs.FreeList.Exec.{first_used}
use tyrant_fs.FreeList.FreeExec.{first_empty}
use tyrant_fs.FreeList.Chain.{count, entries}

-- An address that is handed out or put in, zero being none.
abbrev pub occurs : ℕ → ℕ → ℕ
occurs x a = if a == 0 then 0 else if x == a then 1 else 0

module _ (f : Memory) (b : ℕ) where
  pub first_used-none :
      (k i : ℕ)
      → first_used f b (suc k) i ≡ none
      → (entries f b k i ≡ []) × (word f (b + (i + 8 * k)) ≡ 0)
  unfolding first_used entries
  first_used-none zero i h = elim (Bool-cases (word f (b + i) == 0)) [
    | inl e ↦ (refl, ap (λ p. word f (b + p)) (omega arith) ∙ ==→eq _ 0 e)
    | inr e ↦ ground arith
  ]
  first_used-none (suc k) i h = elim (Bool-cases (word f (b + i) == 0)) [
    | inl e ↦
        let r = first_used-none k (i + 8) (rw e at h) in
        (rw e r.0, ap (λ p. word f (b + p)) (omega arith) ∙ r.1)
    | inr e ↦ ground arith
  ]

  -- Only the last slot holds an address.
  pub first_used-last :
      (k i : ℕ) → first_used f b (suc k) i ≡ some (i + 8 * k) → entries f b k i ≡ []
  unfolding first_used entries
  first_used-last zero i h = refl
  first_used-last (suc k) i h = elim (Bool-cases (word f (b + i) == 0)) [
    | inl e ↦ rw e (first_used-last k (i + 8) ((rw e at h) ∙ ap some (omega arith)))
    | inr e ↦ absurd (ground arith)
  ]

  pub first_used-slot :
      (k i : ℕ) {j : ℕ}
      → first_used f b k i ≡ some j
      → (m : ℕ) × (m < k) × (j ≡ i + 8 * m) × (word f (b + j) ≢ 0)
  unfolding first_used
  first_used-slot zero i h = absurd (ground arith)
  first_used-slot (suc k) i {j} h = elim (Bool-cases (word f (b + i) == 0)) [
    | inl e ↦
        let r = first_used-slot k (i + 8) {j = j} (rw e at h) in
        (suc r.0, omega arith, omega arith, r.3)
    | inr e ↦ (0, omega arith, ground arith, ground (arith, ==→ne _ 0 e))
  ]

  pub first_empty-slot :
      (k i : ℕ) {j : ℕ}
      → first_empty f b k i ≡ some j
      → (m : ℕ) × (m < k) × (j ≡ i + 8 * m) × (word f (b + j) ≡ 0)
  unfolding first_empty
  first_empty-slot zero i h = absurd (ground arith)
  first_empty-slot (suc k) i {j} h = elim (Bool-cases (word f (b + i) == 0)) [
    | inl e ↦ (0, omega arith, ground arith, ground (arith, ==→eq _ 0 e))
    | inr e ↦
        let r = first_empty-slot k (i + 8) {j = j} (rw e at h) in
        (suc r.0, omega arith, omega arith, r.3)
  ]

  pub entries-later :
      (g : Memory) (k i : ℕ)
      → ((p : ℕ) → i ≤ p → p + 8 ≤ i + 8 * k → word g (b + p) ≡ word f (b + p))
      → entries g b k i ≡ entries f b k i
  unfolding entries
  entries-later g zero i same = refl
  entries-later g (suc k) i same =
      let here : word g (b + i) ≡ word f (b + i) = same i (omega arith) (omega arith) in
      rw (here, entries-later g k (i + 8) (λ p q r. same p (omega arith) (omega arith)))

  -- The memories differ in block `b` at most in the slot at offset `j`.
  pub entries-slot :
      (g : Memory) (x j k i m : ℕ)
      → j ≡ i + 8 * m
      → m < k
      → ((p : ℕ)
          → i ≤ p
          → p + 8 ≤ i + 8 * k
          → (p + 8 ≤ j) ⊎ (j + 8 ≤ p)
          → word g (b + p) ≡ word f (b + p))
      → count x (entries f b k i) + occurs x (word g (b + j))
        ≡ count x (entries g b k i) + occurs x (word f (b + j))
  unfolding entries count
  entries-slot g x j zero i m e h same = absurd (omega arith)
  entries-slot g x j (suc k) i zero e h same =
      let here : j ≡ i = omega arith in
      let rest : entries g b k (i + 8) ≡ entries f b k (i + 8) =
        entries-later g k (i + 8)
          (λ p q r. same p (omega arith) (omega arith) (inr (omega arith))) in
      rw (here, rest) (ground arith)
  entries-slot g x j (suc k) i (suc m) e h same =
      let here : word g (b + i) ≡ word f (b + i) =
        same i (omega arith) (omega arith) (inl (omega arith)) in
      let rest =
        entries-slot g x j k (i + 8) m (omega arith) (omega arith)
          (λ p q r. same p (omega arith) (omega arith)) in
      rw here (ground (arith, rest))
