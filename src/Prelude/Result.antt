-- ===== src/Prelude/Result.antt =====
-- The result of code that returns false or nullopt with an error text.
use mathlib.Core.Path.{◌≡◌, refl}
use mathlib.Core.Logic.{◌⊎◌, inl, inr}
use mathlib.Core.Bool.{Bool, true, false}
use mathlib.Core.Option.{Option, none, some}
use aegis_desk.Prelude.Text.{Str}

pub data Result {ℓ} (A : Type ℓ) : Type ℓ where
  ok : A → Result A
  err : Str → Result A

module _ {ℓ} {A : Type ℓ} where
  -- A missing value ends the run with a text.
  abbrev pub require : Option A → Str → Result A
  require (some value) message = ok value
  require none message = err message

  pub Result-cases : (m : Result A) → ((a : A) × (m ≡ ok a)) ⊎ ((text : Str) × (m ≡ err text))
  Result-cases (ok value) = inl (value, refl)
  Result-cases (err message) = inr (message, refl)

-- So does a test that fails.
abbrev pub guard : Bool → Str → Result (Unit {0})
guard passed message = elim passed [ true ↦ ok tt | false ↦ err message ]

infixl 5 ◌>>=◌ ◌>>◌
abbrev pub ◌>>=◌ {ℓ₁ ℓ₂} : {X : Type ℓ₁} {Y : Type ℓ₂} → Result X → (X → Result Y) → Result Y
run >>= next = elim run [ err message ↦ err message | ok value ↦ next value ]

abbrev pub ◌>>◌ {ℓ₂} : {Y : Type ℓ₂} → Result (Unit {0}) → Result Y → Result Y
run >> next = elim run [ err message ↦ err message | ok _ ↦ next ]
