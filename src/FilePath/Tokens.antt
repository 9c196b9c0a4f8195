-- ===== src/FilePath/Tokens.antt =====
-- The tokens of a path, as `strtok` with "/" gives them.
use tyrant_fs.Base.{
  ℕ, ◌≡◌, refl, ap, ◌∙◌, sym, ◌≢◌, List, [], ◌∷◌, ◌++◌, inl, inr, Bool-cases, append_assoc,
  append-nil, ◌==◌, ==→ne, ne→==,
}
use tyrant_fs.FilePath.{tokens_from, tokens}

-- A name holds no `/`.
abbrev pub NoSlash : List ℕ → Type 0
NoSlash [] = Unit {0}
NoSlash (c ∷ cs) = (c ≢ b'/') × NoSlash cs

-- What a path is made of.
abbrev pub IsName : List ℕ → Type 0
IsName name = (name ≢ []) × NoSlash name

abbrev pub AllNames : List (List ℕ) → Type 0
AllNames [] = Unit {0}
AllNames (name ∷ names) = IsName name × AllNames names

-- The path `/a/b/c` of its names.
abbrev pub join : List (List ℕ) → List ℕ
join [] = []
join (name ∷ names) = (b'/' ∷ name) ++ join names

tokens_from-name :
    (c : ℕ) (token rest path : List ℕ)
    → NoSlash rest
    → tokens_from (c ∷ token) (rest ++ path) ≡ tokens_from (c ∷ (token ++ rest)) path
unfolding tokens_from
tokens_from-name c token [] path h = ap (λ t. tokens_from (c ∷ t) path) (sym (append-nil token))
tokens_from-name c token (d ∷ rest) path h = rw (ne→== d b'/' h.0) (
    tokens_from-name c (token ++ d ∷ []) rest path h.1
    ∙ ap (λ t. tokens_from (c ∷ t) path) (append_assoc token (d ∷ []) rest))

tokens_from-join :
    (c : ℕ) (cs : List ℕ) (names : List (List ℕ))
    → tokens (join names) ≡ names
    → tokens_from (c ∷ cs) (join names) ≡ (c ∷ cs) ∷ names
unfolding tokens tokens_from
tokens_from-join c cs [] h = refl
tokens_from-join c cs (name ∷ names) h = ap (λ t. (c ∷ cs) ∷ t) h

-- The path made of names has those tokens.
pub tokens-join : (names : List (List ℕ)) → AllNames names → tokens (join names) ≡ names
unfolding tokens tokens_from
tokens-join [] h = refl
tokens-join ([] ∷ names) h = absurd ((h.0).0 refl)
tokens-join ((c ∷ cs) ∷ names) h = rw (ne→== c b'/' ((h.0).1).0) (
    tokens_from-name c [] cs (join names) ((h.0).1).1
    ∙ tokens_from-join c cs names (tokens-join names h.1))

NoSlash-append : (xs ys : List ℕ) → NoSlash xs → NoSlash ys → NoSlash (xs ++ ys)
NoSlash-append [] ys h k = k
NoSlash-append (x ∷ xs) ys h k = (h.0, NoSlash-append xs ys h.1 k)

tokens_from-AllNames : (token path : List ℕ) → NoSlash token → AllNames (tokens_from token path)
unfolding tokens_from
tokens_from-AllNames [] [] h = tt
tokens_from-AllNames (d ∷ ds) [] h = ((λ e. absurd (cc e), h), tt)
tokens_from-AllNames [] (c ∷ path) h = elim (Bool-cases (c == b'/')) [
  | inl slash ↦ rw slash (tokens_from-AllNames [] path h)
  | inr other ↦ rw other (tokens_from-AllNames (c ∷ []) path (==→ne c b'/' other, tt))
]
tokens_from-AllNames (d ∷ ds) (c ∷ path) h = elim (Bool-cases (c == b'/')) [
  | inl slash ↦ rw slash (((λ e. absurd (cc e), h), tokens_from-AllNames [] path tt))
  | inr other ↦ rw other (
      tokens_from-AllNames ((d ∷ ds) ++ c ∷ []) path
        (NoSlash-append (d ∷ ds) (c ∷ []) h (==→ne c b'/' other, tt)))
]

-- Whatever the path, each token is a name: it is not empty and holds no `/`.
pub tokens-AllNames : (path : List ℕ) → AllNames (tokens path)
unfolding tokens
tokens-AllNames path = tokens_from-AllNames [] path tt
