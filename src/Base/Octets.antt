-- ===== src/Base/Octets.antt =====
-- Lists and memories whose entries are bytes.
use Prim.Native.Nat.{ℕ, zero, suc, ◌+◌, ◌-◌, ◌/◌, ◌<◌, ◌≤◌}
use mathlib.Core.Logic.{inl, inr}
use mathlib.Core.Bool.{◌&&◌}
use mathlib.Core.List.{List, [], ◌∷◌}
use native.Mathlib.Omega.{arith}
use tyrant_fs.Base.Tests.{ltb, leb, Bool-cases}
use tyrant_fs.Base.Lists.{length, get_or, drop}
use tyrant_fs.Base.Bytes.{Memory, bytes_at, store, le_bytes}

abbrev pub AllBytes : List ℕ → Type 0
AllBytes [] = Unit {0}
AllBytes (b ∷ bs) = (b < 256) × AllBytes bs

-- Memory holds bytes.
abbrev pub HasBytes : Memory → Type 0
HasBytes f = (x : ℕ) → f x < 256

pub AllBytes-drop : (n : ℕ) (bs : List ℕ) → AllBytes bs → AllBytes (drop n bs)
AllBytes-drop zero bs h = h
AllBytes-drop (suc n) [] h = tt
AllBytes-drop (suc n) (b ∷ bs) h = AllBytes-drop n bs h.1

pub AllBytes-bytes_at :
    (f : Memory) (a n : ℕ) → ((x : ℕ) → a ≤ x → x < a + n → f x < 256) → AllBytes (bytes_at f a n)
unfolding bytes_at
AllBytes-bytes_at f a zero h = tt
AllBytes-bytes_at f a (suc n) h = (
  h a (omega arith) (omega arith),
  AllBytes-bytes_at f (a + 1) n (λ x p q. h x (omega arith) (omega arith)),
)

pub AllBytes-le_bytes : (n v : ℕ) → AllBytes (le_bytes n v)
unfolding le_bytes
AllBytes-le_bytes zero v = tt
AllBytes-le_bytes (suc n) v = (omega arith, AllBytes-le_bytes n (v / 256))

get_or-AllBytes_lt : (bs : List ℕ) (i : ℕ) → AllBytes bs → get_or bs i 0 < 256
get_or-AllBytes_lt [] i h = omega arith
get_or-AllBytes_lt (b ∷ bs) zero h = h.0
get_or-AllBytes_lt (b ∷ bs) (suc i) h = get_or-AllBytes_lt bs i h.1

pub store-HasBytes :
    (f : Memory) (a : ℕ) (bs : List ℕ) → HasBytes f → AllBytes bs → HasBytes (store f a bs)
unfolding store
store-HasBytes f a bs h k x = elim (Bool-cases (leb a x && ltb x (a + length bs))) [
  | inl e ↦ rw e (get_or-AllBytes_lt bs (x - a) k)
  | inr e ↦ rw e (h x)
]
