-- ===== src/Base/Store.antt =====
-- What a write to memory changes: the range that it covers reads back, all else stays.
use Prim.Native.Nat.{ℕ, zero, suc, ◌+◌, ◌-◌, ◌^◌, ◌≤◌, ◌<◌}
use mathlib.Core.Path.{◌≡◌, refl, ap, ap₂, ◌∙◌, sym}
use mathlib.Core.Logic.{◌⊎◌}
use mathlib.Core.List.{List, [], ◌∷◌}
use native.Mathlib.Omega.{arith}
use tyrant_fs.Base.Lists.{length, get_or, replicate, length-replicate, get_or-replicate}
use tyrant_fs.Base.Bytes.{
  Memory, bytes_at, store, le_bytes, le_value, word, bytes_at_congr, length-le_bytes,
  le_value-le_bytes,
}

module _ (f : Memory) (a : ℕ) (bs : List ℕ) where
  pub store_in : (x : ℕ) → a ≤ x → x < a + length bs → store f a bs x ≡ get_or bs (x - a) 0
  unfolding store
  store_in x p q = ground arith

  pub store_below : (x : ℕ) → x < a → store f a bs x ≡ f x
  unfolding store
  store_below x p = ground arith

  pub store_above : (x : ℕ) → a + length bs ≤ x → store f a bs x ≡ f x
  unfolding store
  store_above x p = ground arith

  pub bytes_at-store_below : (b n : ℕ) → b + n ≤ a → bytes_at (store f a bs) b n ≡ bytes_at f b n
  bytes_at-store_below b n h = bytes_at_congr _ f b n (λ x p q. store_below x (omega arith))

  pub bytes_at-store_above :
      (b n : ℕ) → a + length bs ≤ b → bytes_at (store f a bs) b n ≡ bytes_at f b n
  bytes_at-store_above b n h = bytes_at_congr _ f b n (λ x p q. store_above x (omega arith))

  pub word-store_below : (b : ℕ) → b + 8 ≤ a → word (store f a bs) b ≡ word f b
  unfolding word
  word-store_below b h = ap le_value (bytes_at-store_below b 8 h)

  pub word-store_above : (b : ℕ) → a + length bs ≤ b → word (store f a bs) b ≡ word f b
  unfolding word
  word-store_above b h = ap le_value (bytes_at-store_above b 8 h)

  -- A byte or a word apart from the range, on either side.
  pub store_off : (x : ℕ) → (x < a) ⊎ (a + length bs ≤ x) → store f a bs x ≡ f x
  store_off x h = elim h [ ◌⊎◌.inl p ↦ store_below x p | ◌⊎◌.inr p ↦ store_above x p ]

  pub word-store_off :
      (b : ℕ) → (b + 8 ≤ a) ⊎ (a + length bs ≤ b) → word (store f a bs) b ≡ word f b
  word-store_off b h = elim h [
    | ◌⊎◌.inl p ↦ word-store_below b p
    | ◌⊎◌.inr p ↦ word-store_above b p
  ]

-- A range reads back as a list that it agrees with.
bytes_at-get_or :
    (f : Memory) (a : ℕ) (bs : List ℕ)
    → ((i : ℕ) → i < length bs → f (a + i) ≡ get_or bs i 0)
    → bytes_at f a (length bs) ≡ bs
unfolding bytes_at
bytes_at-get_or f a [] h = refl
bytes_at-get_or f a (b ∷ bs) h =
    ap₂ ◌∷◌ (ap f (omega arith) ∙ h 0 (omega arith))
      (bytes_at-get_or f (a + 1) bs λ i p. ap f (omega arith) ∙ h (suc i) (omega arith))

pub bytes_at-store : (f : Memory) (a : ℕ) (bs : List ℕ) → bytes_at (store f a bs) a (length bs) ≡ bs
bytes_at-store f a bs = bytes_at-get_or (store f a bs) a bs λ i p.
    store_in f a bs (a + i) (omega arith) (omega arith) ∙ ap (λ k. get_or bs k 0) (omega arith)

module _ (f : Memory) (a v : ℕ) where
  -- The word just written.
  pub word-store_self : v < 2 ^ 64 → word (store f a (le_bytes 8 v)) a ≡ v
  unfolding word
  word-store_self h =
      ap le_value (
        ap (bytes_at (store f a (le_bytes 8 v)) a) (sym (length-le_bytes 8 v))
        ∙ bytes_at-store f a (le_bytes 8 v))
      ∙ le_value-le_bytes 8 v (omega arith)

  -- Words that do not overlap it.
  pub word-store_ne :
      (b : ℕ) → (b + 8 ≤ a) ⊎ (a + 8 ≤ b) → word (store f a (le_bytes 8 v)) b ≡ word f b
  word-store_ne b h = elim h [
    | ◌⊎◌.inl p ↦ word-store_below f a (le_bytes 8 v) b p
    | ◌⊎◌.inr p ↦ word-store_above f a (le_bytes 8 v) b (omega (arith, length-le_bytes 8 v))
  ]

-- Zero bytes make zero words.
pub le_value-zero :
    (f : Memory) (a n : ℕ) → ((x : ℕ) → a ≤ x → x < a + n → f x ≡ 0) → le_value (bytes_at f a n) ≡ 0
unfolding le_value bytes_at
le_value-zero f a zero h = refl
le_value-zero f a (suc n) h = omega (
  arith,
  h a (omega arith) (omega arith),
  le_value-zero f (a + 1) n (λ x p q. h x (omega arith) (omega arith)),
)

pub word-store_zero :
    (f : Memory) (a n b : ℕ) → a ≤ b → b + 8 ≤ a + n → word (store f a (replicate n 0)) b ≡ 0
unfolding word
word-store_zero f a n b p q = le_value-zero _ b 8 λ x r s.
    store_in f a (replicate n 0) x (omega arith) (omega (arith, length-replicate {0} {A = ℕ} n 0))
    ∙ get_or-replicate n (x - a) 0

-- A word of bytes fits in 64 bits.
pub le_value_lt : (f : Memory) (a : ℕ) → ((x : ℕ) → f x < 256) → word f a < 2 ^ 64
unfolding word le_value bytes_at
le_value_lt f a h = omega (
  arith,
  h a,
  h (a + 1),
  h (a + 1 + 1),
  h (a + 1 + 1 + 1),
  h (a + 1 + 1 + 1 + 1),
  h (a + 1 + 1 + 1 + 1 + 1),
  h (a + 1 + 1 + 1 + 1 + 1 + 1),
  h (a + 1 + 1 + 1 + 1 + 1 + 1 + 1),
)
