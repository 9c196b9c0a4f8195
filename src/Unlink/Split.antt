-- ===== src/Unlink/Split.antt =====
-- The split of a path at its last `/`.
use tyrant_fs.Base.{
  ℕ, ◌≡◌, ap, Option, none, some, List, [], ◌∷◌, ◌++◌, inl, inr, Bool-cases, ◌==◌, ==→eq, ==→ne,
  zero, suc, ◌<◌, ◌≤◌, refl, ◌∙◌, arith, get_or, take, drop, length,
}
use tyrant_fs.FilePath.Tokens.{NoSlash}
use tyrant_fs.Unlink.{split_path, scan_back}

-- `path` is `parent`, a `/` and `name`, and this is the last `/`.
pub record IsSplit (path parent name : List ℕ) : Type 0 where
  pub parts : path ≡ parent ++ b'/' ∷ name
  pub last : NoSlash name

-- What the split of a path may be.
abbrev pub SplitOf : List ℕ → Option (List ℕ × List ℕ) → Type 0
SplitOf path none = NoSlash path
SplitOf path (some (parent, name)) = IsSplit path parent name

drop-get_or :
    (i : ℕ) (path : List ℕ) → i < length path → drop i path ≡ get_or path i 0 ∷ drop (suc i) path
drop-get_or i [] h = absurd (omega arith)
drop-get_or zero (c ∷ path) h = refl
drop-get_or (suc i) (c ∷ path) h = drop-get_or i path (omega arith)

take-drop_parts : (i : ℕ) (path : List ℕ) → path ≡ take i path ++ drop i path
take-drop_parts zero path = refl
take-drop_parts (suc i) [] = refl
take-drop_parts (suc i) (c ∷ path) = ap (λ t. c ∷ t) (take-drop_parts i path)

drop-NoSlash : (path : List ℕ) → NoSlash (drop (length path) path)
drop-NoSlash [] = tt
drop-NoSlash (c ∷ path) = drop-NoSlash path

-- What the loop finds, if there is no `/` from `k` on.
scan_back-SplitOf :
    (k : ℕ) (path : List ℕ)
    → k ≤ length path
    → NoSlash (drop k path)
    → SplitOf path (scan_back k path)
unfolding scan_back
scan_back-SplitOf zero path h none_behind = none_behind
scan_back-SplitOf (suc i) path h none_behind =
    let cut = drop-get_or i path (omega arith) in
    elim (Bool-cases (get_or path i 0 == b'/')) [
      | inl slash ↦
          let here : get_or path i 0 ≡ b'/' = ==→eq (get_or path i 0) b'/' slash in
          rw slash (record {
            parts =
                take-drop_parts i path
                ∙ ap (λ t. take i path ++ t) (cut ∙ ap (λ c. c ∷ drop (suc i) path) here);
            last = none_behind;
          })
      | inr other ↦ rw other (
          scan_back-SplitOf i path (omega arith)
            (rw cut (==→ne (get_or path i 0) b'/' other, none_behind)))
    ]

-- `split_path` splits a path at its last `/`, and fails only for a path that holds none.
pub split_path-SplitOf : (path : List ℕ) → SplitOf path (split_path path)
unfolding split_path
split_path-SplitOf path = scan_back-SplitOf (length path) path (omega arith) (drop-NoSlash path)
