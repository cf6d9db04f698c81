-- ===== src/Prelude/Errors.antt =====
-- Go's pair of a value and an error: the error, or else the value.
use mathlib.Core.Path.{◌≡◌, refl}
use mathlib.Core.Logic.{◌⊎◌, inl, inr}
use mathlib.Core.Option.{Option, none, some}

pub data Result {ℓ κ} (Failed : Type κ) (Value : Type ℓ) : Type (ℓ ⊔ κ) where
  err : Failed → Result Failed Value
  ok : Value → Result Failed Value

module _ {κ} {Failed : Type κ} where
  pub Result-cases {ℓ} :
      {Value : Type ℓ} (r : Result Failed Value)
      → ((v : Value) × (r ≡ ok v)) ⊎ ((f : Failed) × (r ≡ err f))
  Result-cases (err f) = inr (f, refl)
  Result-cases (ok v) = inl (v, refl)

  -- `if v == nil { return e }`
  abbrev pub or_fail {ℓ} : {Value : Type ℓ} → Option Value → Failed → Result Failed Value
  or_fail o e = elim o [ some v ↦ ok v | none ↦ err e ]

  infixl 5 ◌>>=◌
  -- `if err != nil { return err }`, then the rest.
  abbrev pub ◌>>=◌ {ℓ μ} :
      {Value : Type ℓ} {Next : Type μ}
      → Result Failed Value
      → (Value → Result Failed Next)
      → Result Failed Next
  ◌>>=◌ earlier later = elim earlier [ err e ↦ err e | ok v ↦ later v ]
