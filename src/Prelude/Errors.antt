-- ===== src/Prelude/Errors.antt =====
-- Go's `(value, error)` results: a value or one of the packages' errors.
use Prim.Native.Nat.{ℕ}
use mathlib.Core.Path.{◌≡◌, refl}
use mathlib.Core.Logic.{◌⊎◌, inl, inr}

pub data Error : Type 0 where
  no_candidates invalid_inputs unknown_action invalid_probe invalid_spread : Error
  invalid_period no_prefix_sizes length_mismatch : Error
  invalid_alpha invalid_seconds_per_byte : Error
  invalid_timeout invalid_interval : Error
  no_rows empty_input bad_header : Error
  bad_row bad_line : ℕ → Error

pub data Result {ℓ} (Value : Type ℓ) : Type ℓ where
  err : Error → Result Value
  ok : Value → Result Value

-- `if err != nil { return err }`, and otherwise the rest.
abbrev pub ◌>>=◌ {ℓ κ} :
    {Value : Type ℓ} {Next : Type κ} → Result Value → (Value → Result Next) → Result Next
err failure >>= rest = err failure
ok value >>= rest = rest value

infixl 5 ◌>>=◌
pub Result-cases {ℓ} :
    {A : Type ℓ} (r : Result A) → ((a : A) × (r ≡ ok a)) ⊎ ((e : Error) × (r ≡ err e))
Result-cases (ok a) = inl (a, refl)
Result-cases (err e) = inr (e, refl)

module _ {ℓ κ} {Value : Type ℓ} {Next : Type κ} (rest : Value → Result Next) where
  -- A chain that succeeds succeeded at its first step.
  pub >>=-eq-ok :
      (first : Result Value) {last : Next}
      → (first >>= rest) ≡ ok last
      → (value : Value) × (first ≡ ok value) × (rest value ≡ ok last)
  >>=-eq-ok (err failure) h = cc
  >>=-eq-ok (ok value) h = (value, refl, h)

pub ok-injective {ℓ} : {A : Type ℓ} {a b : A} → ok a ≡ ok b → a ≡ b
ok-injective e = cc
