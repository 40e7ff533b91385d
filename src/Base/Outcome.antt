-- ===== src/Base/Outcome.antt =====
-- Results of recursion on fuel: a value, an error that ends the program, or no fuel left.
use mathlib.Core.Path.{◌≡◌, refl}
use mathlib.Core.Logic.{◌≢◌}
use mathlib.Core.Bool.{Bool, true, false}
use mathlib.Core.Option.{Option, none, some}

pub data Outcome {ℓ} (A : Type ℓ) : Type ℓ where
  ok : A → Outcome A
  failed : Outcome A
  out_of_fuel : Outcome A

module _ {ℓ κ} {A : Type ℓ} {B : Type κ} where
  infixl 10 ◌>>=◌ ◌>>◌
  abbrev pub ◌>>=◌ : Outcome A → (A → Outcome B) → Outcome B
  ok a >>= f = f a
  failed >>= f = failed
  out_of_fuel >>= f = out_of_fuel

  abbrev pub ◌>>◌ : Outcome A → Outcome B → Outcome B
  o >> p = o >>= λ _. p

  -- What a step that succeeds has come through.
  pub >>=-ok :
      (o : Outcome A) (f : A → Outcome B) (b : B)
      → (o >>= f) ≡ ok b
      → (a : A) × (o ≡ ok a) × (f a ≡ ok b)
  >>=-ok (ok a) f b e = (a, refl, e)
  >>=-ok failed f b e = cc
  >>=-ok out_of_fuel f b e = cc

  -- A chain has fuel when each of its steps has.
  pub >>=-≢-out_of_fuel :
      (o : Outcome A) (f : A → Outcome B)
      → o ≢ out_of_fuel
      → ((a : A) → o ≡ ok a → f a ≢ out_of_fuel)
      → (o >>= f) ≢ out_of_fuel
  >>=-≢-out_of_fuel (ok a) f h k = k a refl
  >>=-≢-out_of_fuel failed f h k = λ e. cc
  >>=-≢-out_of_fuel out_of_fuel f h k = absurd (h refl)

module _ {ℓ κ ι} {A : Type ℓ} {B : Type κ} {C : Type ι} where
  pub >>=-assoc :
      (o : Outcome A) (f : A → Outcome B) (g : B → Outcome C)
      → (o >>= f >>= g) ≡ (o >>= λ a. f a >>= g)
  >>=-assoc (ok a) f g = refl
  >>=-assoc failed f g = refl
  >>=-assoc out_of_fuel f g = refl

-- `assert`
abbrev pub require : Bool → Outcome (Unit {0})
require true = ok tt
require false = failed

-- A step that may fail but needs no fuel.
abbrev pub lift {ℓ} : {A : Type ℓ} → Option A → Outcome A
lift none = failed
lift (some a) = ok a

pub require-true : {A : Type 0} (b : Bool) (o : Outcome A) → b ≡ true → (require b >> o) ≡ o
require-true true o e = refl
require-true false o e = cc

pub ok_injective {ℓ} : {A : Type ℓ} {a b : A} → ok a ≡ ok b → a ≡ b
ok_injective e = cc
