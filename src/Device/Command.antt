-- ===== src/Device/Command.antt =====
-- The outcome of a command: a value and the new state, or fuel that ran out.
use tyrant_fs.Base.{◌≡◌, refl}

pub data Run (S A : Type 0) : Type 0 where
  ret : A → S → Run S A
  out_of_fuel : Run S A

abbrev pub and_then : {S A B : Type 0} → Run S A → (A → S → Run S B) → Run S B
and_then (ret a s) k = k a s
and_then out_of_fuel k = out_of_fuel

-- The command ends, and its result and state satisfy `P`.
abbrev pub Returns : {S A : Type 0} → (A → S → Type 0) → Run S A → Type 0
Returns P (ret a s) = P a s
Returns P out_of_fuel = ⊥

module _ {S A : Type 0} where
  pub Returns-bind :
      {B : Type 0} (P : A → S → Type 0) (Q : B → S → Type 0) (r : Run S A) (k : A → S → Run S B)
      → Returns P r
      → ((a : A) (s : S) → P a s → Returns Q (k a s))
      → Returns Q (and_then r k)
  Returns-bind P Q (ret a s) k p next = next a s p
  Returns-bind P Q out_of_fuel k p next = p

  pub Returns-mono :
      (P Q : A → S → Type 0) (r : Run S A)
      → Returns P r
      → ((a : A) (s : S) → P a s → Q a s)
      → Returns Q r
  Returns-mono P Q (ret a s) p weaken = weaken a s p
  Returns-mono P Q out_of_fuel p weaken = p

  -- The result and the state at the end.
  pub Returns-result :
      (P : A → S → Type 0) (r : Run S A) → Returns P r → (a : A) × (t : S) × (r ≡ ret a t) × P a t
  Returns-result P (ret a t) p = (a, t, refl, p)
  Returns-result P out_of_fuel p = absurd p
