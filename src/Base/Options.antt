-- ===== src/Base/Options.antt =====
-- Chains of steps that may fail.
use mathlib.Core.Path.{◌≡◌, refl}
use mathlib.Core.Bool.{Bool, true, false}
use mathlib.Core.Option.{Option, none, some}

infixl 10 ◌>>=◌ ◌>>◌
abbrev pub ◌>>=◌ {ℓ κ} : {A : Type ℓ} {B : Type κ} → Option A → (A → Option B) → Option B
none >>= f = none
(some a) >>= f = f a

abbrev pub ◌>>◌ {ℓ κ} : {A : Type ℓ} {B : Type κ} → Option A → Option B → Option B
o >> p = o >>= λ _. p

-- `assert`, and the bounds of an array.
abbrev pub ensure : Bool → Option (Unit {0})
ensure true = some tt
ensure false = none

-- What a step that succeeds has come through.
pub >>=-some {ℓ κ} :
    {A : Type ℓ} {B : Type κ} (o : Option A) (f : A → Option B) (b : B)
    → (o >>= f) ≡ some b
    → (a : A) × (o ≡ some a) × (f a ≡ some b)
>>=-some none f b e = cc
>>=-some (some a) f b e = (a, refl, e)

pub ensure->> {ℓ} :
    {A : Type ℓ} (t : Bool) (o : Option A) (a : A)
    → (ensure t >> o) ≡ some a
    → (t ≡ true) × (o ≡ some a)
ensure->> true o a e = (refl, e)
ensure->> false o a e = cc
