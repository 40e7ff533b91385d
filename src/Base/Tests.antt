-- ===== src/Base/Tests.antt =====
-- Boolean tests on the native numbers, the conditional, and splits on computed values.
use Prim.Native.Nat.{ℕ, ◌≤◌, ◌<◌, compare, Ordering}
use mathlib.Core.Path.{◌≡◌, refl}
use mathlib.Core.Logic.{◌↔◌, ◌⊎◌, inl, inr}
use mathlib.Core.Bool.{Bool, true, false, ◌&&◌}
use mathlib.Core.Option.{Option, none, some}
use native.Mathlib.Omega.{arith}

abbrev pub ltb : ℕ → ℕ → Bool
ltb a b = elim (compare a b) [ Ordering.lt ↦ true | _ ↦ false ]

abbrev pub leb : ℕ → ℕ → Bool
leb a b = elim (compare a b) [ Ordering.gt ↦ false | _ ↦ true ]

infix 50 ◌==◌
abbrev pub ◌==◌ : ℕ → ℕ → Bool
a == b = elim (compare a b) [ Ordering.eq ↦ true | _ ↦ false ]

infix 1 if◌then◌else◌
abbrev pub if◌then◌else◌ {ℓ} : {A : Type ℓ} → Bool → A → A → A
if true then x else y = x
if false then x else y = y

-- A guarded update of a value: C's `if (b) { ... }` with no `else`.
abbrev pub when {ℓ} : {A : Type ℓ} → Bool → (A → A) → A → A
when true f x = f x
when false f x = x

-- What holds before a guarded update and is kept by the update holds after it.
pub when-keeps {ℓ κ} :
    {A : Type ℓ} (P : A → Type κ) (b : Bool) (f : A → A) (x : A)
    → P x
    → (P x → P (f x))
    → P (when b f x)
when-keeps P true f x h k = k h
when-keeps P false f x h k = h

pub ==_iff : (a b : ℕ) → ((a == b) ≡ true) ↔ (a ≡ b)
==_iff a b = ground arith

pub ==_self : (a : ℕ) → (a == a) ≡ true
==_self a = ground arith

pub leb-≤ : (a b : ℕ) → leb a b ≡ true → a ≤ b
leb-≤ a b e = ground (arith, e)

pub ltb-< : (a b : ℕ) → ltb a b ≡ true → a < b
ltb-< a b e = ground (arith, e)

pub leb-> : (a b : ℕ) → leb a b ≡ false → b < a
leb-> a b e = ground (arith, e)

pub &&-true : (a b : Bool) → (a && b) ≡ true → (a ≡ true) × (b ≡ true)
&&-true true b e = (refl, e)
&&-true false b e = cc

pub Bool-cases : (b : Bool) → (b ≡ true) ⊎ (b ≡ false)
Bool-cases true = inl refl
Bool-cases false = inr refl

pub Option-cases {ℓ} : {A : Type ℓ} (o : Option A) → (o ≡ none) ⊎ ((a : A) × (o ≡ some a))
Option-cases none = inl refl
Option-cases (some a) = inr (a, refl)

pub some_injective {ℓ} : {A : Type ℓ} {a b : A} → some a ≡ some b → a ≡ b
some_injective e = cc

-- A case distinction on a Boolean that is known.
pub elim-true {ℓ} :
    {A : Type ℓ} (b : Bool) (x y : A) → b ≡ true → elim b as (λ _. A) [ true ↦ x | false ↦ y ] ≡ x
elim-true true x y e = refl
elim-true false x y e = cc

pub elim-false {ℓ} :
    {A : Type ℓ} (b : Bool) (x y : A) → b ≡ false → elim b as (λ _. A) [ true ↦ x | false ↦ y ] ≡ y
elim-false true x y e = cc
elim-false false x y e = refl
