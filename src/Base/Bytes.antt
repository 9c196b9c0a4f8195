-- ===== src/Base/Bytes.antt =====
-- Byte memory as a function from addresses, ranges of it as lists, and little-endian words in it.
use Prim.Native.Nat.{ℕ, zero, suc, ◌+◌, ◌-◌, ◌*◌, ◌/◌, ◌%◌, ◌^◌, ◌≤◌, ◌<◌}
use mathlib.Core.Path.{◌≡◌, refl, ◌∙◌, ap, ap₂}
use mathlib.Core.Bool.{◌&&◌}
use mathlib.Core.List.{List, [], ◌∷◌, ◌++◌, append-nil}
use native.Mathlib.Omega.{arith}
use native.Mathlib.Nat.{pow-suc}
use tyrant_fs.Base.Tests.{ltb, leb, if◌then◌else◌}
use tyrant_fs.Base.Lists.{length, get_or, drop, drop_all}

abbrev pub Memory : Type 0
Memory = ℕ → ℕ

-- The `n` bytes from address `a` on.
unfoldable pub bytes_at : Memory → ℕ → ℕ → List ℕ
bytes_at f a zero = []
bytes_at f a (suc n) = f a ∷ bytes_at f (a + 1) n

-- Memory with `bs` written from address `a` on.
unfoldable pub store : Memory → ℕ → List ℕ → Memory
store f a bs x = if leb a x && ltb x (a + length bs) then get_or bs (x - a) 0 else f x

-- Where a read is short, the buffer keeps the rest of what it held.
unfoldable pub overlay : List ℕ → List ℕ → List ℕ
overlay got old = got ++ drop (length got) old

unfoldable pub le_bytes : ℕ → ℕ → List ℕ
le_bytes zero v = []
le_bytes (suc n) v = v % 256 ∷ le_bytes n (v / 256)

unfoldable pub le_value : List ℕ → ℕ
le_value [] = 0
le_value (b ∷ bs) = b + 256 * le_value bs

-- The `uint64_t` at an address.
unfoldable pub word : Memory → ℕ → ℕ
word f a = le_value (bytes_at f a 8)

pub length-bytes_at : (f : Memory) (a n : ℕ) → length (bytes_at f a n) ≡ n
unfolding bytes_at
length-bytes_at f a zero = refl
length-bytes_at f a (suc n) = ap suc (length-bytes_at f (a + 1) n)

pub length-le_bytes : (n v : ℕ) → length (le_bytes n v) ≡ n
unfolding le_bytes
length-le_bytes zero v = refl
length-le_bytes (suc n) v = ap suc (length-le_bytes n (v / 256))

pub overlay_full : (got old : List ℕ) → length old ≤ length got → overlay got old ≡ got
unfolding overlay
overlay_full got old h = ap (λ t. got ++ t) (drop_all (length got) old h) ∙ append-nil got

pub le_value-le_bytes : (n v : ℕ) → v < 256 ^ n → le_value (le_bytes n v) ≡ v
unfolding le_bytes le_value
le_value-le_bytes zero v h = omega arith
le_value-le_bytes (suc n) v h =
    omega (arith, le_value-le_bytes n (v / 256) (omega (arith, pow-suc 256 n)))

-- Reads agree where the memories do.
pub bytes_at_congr :
    (f g : Memory) (a n : ℕ)
    → ((x : ℕ) → a ≤ x → x < a + n → f x ≡ g x)
    → bytes_at f a n ≡ bytes_at g a n
unfolding bytes_at
bytes_at_congr f g a zero h = refl
bytes_at_congr f g a (suc n) h =
    ap₂ ◌∷◌ (h a (omega arith) (omega arith))
      (bytes_at_congr f g (a + 1) n (λ x p q. h x (omega arith) (omega arith)))

pub word_congr :
    (f g : Memory) (a : ℕ) → ((x : ℕ) → a ≤ x → x < a + 8 → f x ≡ g x) → word f a ≡ word g a
unfolding word
word_congr f g a h = ap le_value (bytes_at_congr f g a 8 h)
