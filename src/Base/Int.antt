-- ===== src/Base/Int.antt =====
-- C's signed results. `negsuc n` is -(n + 1).
use Prim.Native.Nat.{ℕ, suc, ◌-◌, ◌^◌, ◌%◌, ◌<◌}
use mathlib.Core.Bool.{Bool, true, false}
use mathlib.Core.Path.{◌≡◌, refl}
use native.Mathlib.Omega.{arith}
use tyrant_fs.Base.Tests.{ltb, lt→ltb, if◌then◌else◌}

pub data ℤ : Type 0 where
  pos : ℕ → ℤ
  negsuc : ℕ → ℤ

-- The conversion to `uint64_t`.
abbrev pub to_u64 : ℤ → ℕ
to_u64 (pos n) = n % 2 ^ 64
to_u64 (negsuc n) = 2 ^ 64 - suc (n % 2 ^ 64)

abbrev pub is_neg : ℤ → Bool
is_neg (pos n) = false
is_neg (negsuc n) = true

-- The conversion to `int`: the low 32 bits, read as a signed number.
unfoldable pub to_int : ℕ → ℤ
to_int n = let low = n % 2 ^ 32 in if ltb low (2 ^ 31) then pos low else negsuc (2 ^ 32 - 1 - low)

-- A number that an `int` holds.
pub to_int-small : (n : ℕ) → n < 2 ^ 31 → to_int n ≡ pos n
unfolding to_int
to_int-small n h = let low : n % 2 ^ 32 ≡ n = omega arith in rw (low, lt→ltb n (2 ^ 31) h) refl

-- `int` arithmetic, converted to `uint64_t` for a comparison.
unfoldable pub int_u64 : ℕ → ℕ
unfolding to_int
int_u64 n = to_u64 (to_int n)

pub int_u64-small : (n : ℕ) → n < 2 ^ 31 → int_u64 n ≡ n
unfolding int_u64
int_u64-small n h = rw (to_int-small n h) (omega arith)
