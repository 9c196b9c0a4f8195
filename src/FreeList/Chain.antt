-- ===== src/FreeList/Chain.antt =====
-- The set of free blocks that the bytes of the device stand for, and when they are well formed.
use tyrant_fs.Base.{
  ℕ, zero, suc, ◌+◌, ◌*◌, ◌%◌, ◌^◌, ◌≤◌, ◌<◌, ◌≡◌, refl, ap, ◌≢◌, List, [], ◌∷◌, ◌++◌, arith, ◌==◌,
  if◌then◌else◌,
}
use tyrant_fs.Base.Bytes.{Memory, word}

-- How often an address occurs.
unfoldable pub count : ℕ → List ℕ → ℕ
count a [] = 0
count a (x ∷ xs) = (if a == x then 1 else 0) + count a xs

-- The addresses in `k` slots of block `b` from byte offset `i` on; an empty slot is zero.
unfoldable pub entries : Memory → ℕ → ℕ → ℕ → List ℕ
entries f b zero i = []
entries f b (suc k) i =
    let rest = entries f b k (i + 8) in if word f (b + i) == 0 then rest else word f (b + i) ∷ rest

-- From address `b` the last slots lead through the list blocks `bs` to the end, a zero.
abbrev pub Chain : Memory → ℕ → List ℕ → Type 0
Chain f b [] = b ≡ 0
Chain f b (x ∷ bs) = (b ≡ x) × (x ≢ 0) × Chain f (word f (x + 4088)) bs

-- The free blocks: each list block, and those in its first 511 slots.
unfoldable pub members : Memory → List ℕ → List ℕ
members f [] = []
members f (b ∷ bs) = b ∷ (entries f b 511 0 ++ members f bs)

-- A block that the free list can hold: aligned, behind the superblock and on the device.
pub record IsBlock (size a : ℕ) : Type 0 where
  pub aligned : a % 4096 ≡ 0
  pub behind : 4096 ≤ a
  pub inside : a + 4096 ≤ size

-- The device's free list is well formed, with list blocks `bs`.
pub record IsFreeList (f : Memory) (size : ℕ) (bs : List ℕ) : Type 0 where
  pub chain : Chain f (word f 0) bs
  pub once : (a : ℕ) → count a (members f bs) ≤ 1
  pub valid : (a : ℕ) → 0 < count a (members f bs) → IsBlock size a
  pub small : size < 2 ^ 63

pub count-append : (a : ℕ) (xs ys : List ℕ) → count a (xs ++ ys) ≡ count a xs + count a ys
unfolding count
count-append a [] ys = omega arith
count-append a (x ∷ xs) ys = omega (arith, count-append a xs ys)

pub count_self : (a : ℕ) (xs : List ℕ) → count a (a ∷ xs) ≡ 1 + count a xs
unfolding count
count_self a xs = ground arith

pub count-cons-le : (a x : ℕ) (xs : List ℕ) → count a xs ≤ count a (x ∷ xs)
unfolding count
count-cons-le a x xs = omega arith

-- The two memories have the same words in block `b`.
abbrev pub SameBlock : Memory → Memory → ℕ → Type 0
SameBlock f g b = (i : ℕ) → i + 8 ≤ 4096 → word f (b + i) ≡ word g (b + i)

pub entries_congr :
    (f g : Memory) (b k i : ℕ)
    → i + 8 * k ≤ 4096
    → SameBlock f g b
    → entries f b k i ≡ entries g b k i
unfolding entries
entries_congr f g b zero i h same = refl
entries_congr f g b (suc k) i h same =
    rw (same i (omega arith), entries_congr f g b k (i + 8) (omega arith) same)

-- The list blocks keep their words.
abbrev pub SameBlocks : Memory → Memory → List ℕ → Type 0
SameBlocks f g [] = Unit {0}
SameBlocks f g (b ∷ bs) = SameBlock f g b × SameBlocks f g bs

pub members_congr : (f g : Memory) (bs : List ℕ) → SameBlocks f g bs → members f bs ≡ members g bs
unfolding members
members_congr f g [] same = refl
members_congr f g (b ∷ bs) same =
    rw (entries_congr f g b 511 0 (omega arith) same.0, members_congr f g bs same.1)

pub Chain-congr :
    (f g : Memory) (b : ℕ) (bs : List ℕ) → SameBlocks f g bs → Chain f b bs → Chain g b bs
Chain-congr f g b [] same c = c
Chain-congr f g b (x ∷ bs) same c = (
  c.0,
  c.1,
  Chain-congr f g (word g (x + 4088)) bs same.1 (rw (same.0 4088 (omega arith)) at (c.2)),
)

-- List blocks are free blocks.
pub count-members : (f : Memory) (a : ℕ) (bs : List ℕ) → count a bs ≤ count a (members f bs)
unfolding members count
count-members f a [] = omega arith
count-members f a (b ∷ bs) =
    omega (arith, count-append a (entries f b 511 0) (members f bs), count-members f a bs)

-- A write that spares the list blocks changes none of their words.
pub SameBlocks-of :
    (f g : Memory) (bs : List ℕ) → ((b : ℕ) → 0 < count b bs → SameBlock f g b) → SameBlocks f g bs
unfolding count
SameBlocks-of f g [] h = tt
SameBlocks-of f g (b ∷ bs) h = (h b (ground arith), SameBlocks-of f g bs (λ x p. h x (omega arith)))

pub count-members-cons :
    (f : Memory) (x b : ℕ) (bs : List ℕ)
    → count x (members f (b ∷ bs))
      ≡ (if x == b then 1 else 0) + (count x (entries f b 511 0) + count x (members f bs))
unfolding members count
count-members-cons f x b bs =
    ap (λ n. (if x == b then 1 else 0) + n) (count-append x (entries f b 511 0) (members f bs))
