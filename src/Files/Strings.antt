-- ===== src/Files/Strings.antt =====
-- The comparison and the search of src/files.c, as equality and as membership.
use jaris.Base.{ℕ, ◌≡◌, refl, ap₂, true, false, ◌↔◌, List, [], ◌∷◌}
use jaris.Base.{◌==◌, ==_iff, ==_self, Bool-cases, inl, inr}
use jaris.Files.Types.{str_eq}

str_eq-≡ : (s t : List ℕ) → str_eq s t ≡ true → s ≡ t
unfolding str_eq
str_eq-≡ [] [] e = refl
str_eq-≡ [] (y ∷ t) e = cc
str_eq-≡ (x ∷ s) [] e = cc
str_eq-≡ (x ∷ s) (y ∷ t) e = elim (Bool-cases (x == y)) [
  | inl p ↦
      let q : str_eq s t ≡ true = rw p at e in
      ap₂ (λ (v : ℕ) (l : List ℕ). v ∷ l) ((==_iff x y).0 p) (str_eq-≡ s t q)
  | inr p ↦ let q : false ≡ true = rw p at e in cc
]

pub str_eq_self : (s : List ℕ) → str_eq s s ≡ true
unfolding str_eq
str_eq_self [] = refl
str_eq_self (x ∷ s) = rw (==_self x) (str_eq_self s)

pub str_eq_iff : (s t : List ℕ) → (str_eq s t ≡ true) ↔ (s ≡ t)
str_eq_iff s t = (str_eq-≡ s t, λ e. rw (← e) (str_eq_self s))
