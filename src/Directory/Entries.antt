-- ===== src/Directory/Entries.antt =====
-- The search for a name in the entries of a directory block.
use tyrant_fs.Base.{
  ℕ, zero, suc, ◌+◌, ◌*◌, ◌<◌, ◌≡◌, ◌≢◌, refl, sym, ap, ◌∙◌, List, [], ◌∷◌, ◌++◌, true, false, inl,
  inr, ◌==◌, Bool-cases, ==→eq, eq→==, take, drop, arith,
}
use tyrant_fs.Base.Bytes.{le_value}
use tyrant_fs.Directory.{c_string, same_string, check_entries, check_block}

-- `strcmp` gives 0 for equal strings only.
same_string_sound : (xs ys : List ℕ) → same_string xs ys ≡ true → xs ≡ ys
unfolding same_string
same_string_sound [] [] h = refl
same_string_sound [] (y ∷ ys) h = absurd (cc h)
same_string_sound (x ∷ xs) [] h = absurd (cc h)
same_string_sound (x ∷ xs) (y ∷ ys) h = elim (Bool-cases (x == y)) [
  | inl e ↦
      let rest : same_string xs ys ≡ true = (rw e at h) in
      ap (λ z. z ∷ xs) (==→eq x y e) ∙ ap (λ t. y ∷ t) (same_string_sound xs ys rest)
  | inr e ↦ let no : false ≡ true = (rw e at h) in absurd (cc no)
]

same_string_self : (xs : List ℕ) → same_string xs xs ≡ true
unfolding same_string
same_string_self [] = refl
same_string_self (x ∷ xs) = rw (eq→== x x refl) (same_string_self xs)

drop-nil : (n : ℕ) → drop {A = ℕ} n [] ≡ []
drop-nil zero = refl
drop-nil (suc n) = refl

pub drop-drop : (m n k : ℕ) (xs : List ℕ) → m + n ≡ k → drop n (drop m xs) ≡ drop k xs
drop-drop zero n k xs h = ap (λ i. drop i xs) (omega arith)
drop-drop (suc m) n k [] h = drop-nil n ∙ sym (drop-nil k)
drop-drop (suc m) n zero (x ∷ xs) h = absurd (omega arith)
drop-drop (suc m) n (suc k) (x ∷ xs) h = drop-drop m n k xs (omega arith)

-- The name and the inode's address that entry `j` holds; `last` is the byte behind a name that
-- fills its 248 bytes.
abbrev pub name_at : ℕ → List ℕ → ℕ → List ℕ
name_at last block j = c_string (take 248 (drop (256 * j) block) ++ last ∷ [])

abbrev pub addr_at : List ℕ → ℕ → ℕ
addr_at block j = le_value (take 8 (drop 248 (drop (256 * j) block)))

-- `a` is the address in the first of `k` entries with the name, or 0 if none has it.
pub data FirstEntry (last k : ℕ) (block name : List ℕ) (a : ℕ) : Type 0 where
  absent : a ≡ 0 → ((j : ℕ) → j < k → name_at last block j ≢ name) → FirstEntry last k block name a
  found :
      (j : ℕ)
      → j < k
      → name_at last block j ≡ name
      → a ≡ addr_at block j
      → ((i : ℕ) → i < j → name_at last block i ≢ name)
      → FirstEntry last k block name a

next_entry : (block : List ℕ) (j : ℕ) → drop (256 * j) (drop 256 block) ≡ drop (256 * suc j) block
next_entry block j = drop-drop 256 (256 * j) (256 * suc j) block (omega arith)

next_name :
    (last : ℕ) (block : List ℕ) (j : ℕ)
    → name_at last (drop 256 block) j ≡ name_at last block (suc j)
next_name last block j = ap (λ b. c_string (take 248 b ++ last ∷ [])) (next_entry block j)

others :
    (last k : ℕ) (block name : List ℕ)
    → name_at last block 0 ≢ name
    → ((j : ℕ) → j < k → name_at last (drop 256 block) j ≢ name)
    → (j : ℕ) → j < suc k
    → name_at last block j ≢ name
others last k block name first all zero p = first
others last k block name first all (suc j) p = λ e. all j (omega arith) (next_name last block j ∙ e)

FirstEntry-step :
    (last k : ℕ) (block name : List ℕ) (a : ℕ)
    → name_at last block 0 ≢ name
    → FirstEntry last k (drop 256 block) name a
    → FirstEntry last (suc k) block name a
FirstEntry-step last k block name a other (absent z all) =
    absent z (others last k block name other all)
FirstEntry-step last k block name a other (found j p e q before) =
    found (suc j) (omega arith) (sym (next_name last block j) ∙ e)
      (q ∙ ap (λ b. le_value (take 8 (drop 248 b))) (next_entry block j))
      (others last j block name other before)

check_entries-FirstEntry :
    (last k : ℕ) (block name : List ℕ)
    → FirstEntry last k block name (check_entries last k block name)
unfolding check_entries
check_entries-FirstEntry last zero block name = absent refl λ j p. absurd (omega arith)
check_entries-FirstEntry last (suc k) block name =
    elim (Bool-cases (same_string (name_at last block 0) name)) [
      | inl same ↦
          rw same
            (found 0 (omega arith) (same_string_sound _ name same) refl λ i p. absurd (omega arith))
      | inr other ↦ rw other (
          FirstEntry-step last k block name _
            (λ e.
              let same : same_string (name_at last block 0) name ≡ true =
                (rw e (same_string_self name)) in
              let no : true ≡ false = sym same ∙ other in cc no)
            (check_entries-FirstEntry last k (drop 256 block) name))
    ]

-- `check_block` returns the address in the first of the 16 entries of the block whose name is the
-- given one, and 0 if no entry has it.
pub check_block-FirstEntry :
    (last : ℕ) (block name : List ℕ) → FirstEntry last 16 block name (check_block last block name)
unfolding check_block
check_block-FirstEntry last block name = check_entries-FirstEntry last 16 block name
