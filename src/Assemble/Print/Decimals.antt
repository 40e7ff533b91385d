-- ===== src/Assemble/Print/Decimals.antt =====
-- What src/assemble.c `asm_token_next` reads of a number that `printf` wrote with `%d`.
use jaris.Assemble.Print.Reads.{span-++, ==-class}
use native.Mathlib.Numerals.{unary_clauses}
use jaris.Base.{All-append, subst}
use jaris.Base.{
  ℕ, zero, suc, ◌+◌, ◌*◌, ◌/◌, ◌%◌, ◌^◌, ◌<◌, ◌≡◌, refl, ap, sym, ◌∙◌, arith, Bool, true, false,
  List, [], ◌∷◌, ◌++◌, ltb, leb, ◌==◌, All, if◌then◌else◌, Bool-cases, inl, inr,
}
use jaris.Assemble.Token.TokenKind.{asmt_int}
use jaris.Assemble.Lex.{
  Lexeme, token, lex, number, starts_name, numeral, lex_other, lex_prefixed, digit_value, isdigit,
  lex_int, atoi,
}
use jaris.Assemble.Print.{decimal, decimal_fuel}

-- A decimal number.
number-++ :
    (base acc : ℕ) (xs ys : List ℕ)
    → number base acc (xs ++ ys) ≡ number base (number base acc xs) ys
unfolding number
number-++ base acc [] ys = refl
number-++ base acc (x ∷ xs) ys = number-++ base (acc * base + digit_value x) xs ys

digit_value-decimal : (n : ℕ) → n < 10 → digit_value (n + 48) ≡ n
digit_value-decimal n h = ground arith

pow-suc : (n : ℕ) → 10 ^ suc n ≡ 10 * 10 ^ n
pow-suc n = simp unary_clauses (omega arith)

number-decimal_fuel : (fuel n : ℕ) → n < 10 ^ fuel → number 10 0 (decimal_fuel fuel n) ≡ n
unfolding number decimal_fuel
number-decimal_fuel zero n h = omega (arith, h)
number-decimal_fuel (suc fuel) n h = elim (Bool-cases (ltb n 10)) [
  | inl p ↦ rw p (omega (arith, digit_value-decimal n (ground (arith, p))))
  | inr p ↦ rw p (
      number-++ 10 0 (decimal_fuel fuel (n / 10)) ((n % 10 + 48) ∷ [])
      ∙ rw (number-decimal_fuel fuel (n / 10) (omega (arith, h, pow-suc fuel)))
          (rw (digit_value-decimal (n % 10) (omega arith)) (omega arith)))
]

isdigit-decimal : (n : ℕ) → n < 10 → isdigit (n + 48) ≡ true
isdigit-decimal n h = ground arith

decimal_fuel-isdigit : (fuel n : ℕ) → All (λ c. isdigit c ≡ true) (decimal_fuel fuel n)
unfolding decimal_fuel
decimal_fuel-isdigit zero n = tt
decimal_fuel-isdigit (suc fuel) n = elim (Bool-cases (ltb n 10)) [
  | inl p ↦ rw p (isdigit-decimal n (ground (arith, p)), tt)
  | inr p ↦ rw p (
      All-append (λ c. isdigit c ≡ true) (decimal_fuel fuel (n / 10)) _
        (decimal_fuel-isdigit fuel (n / 10)) (isdigit-decimal (n % 10) (omega arith), tt))
]

-- There is a digit.
decimal_fuel-∷ : (fuel n : ℕ) → (c : ℕ) × (l : List ℕ) × (decimal_fuel (suc fuel) n ≡ c ∷ l)
unfolding decimal_fuel
decimal_fuel-∷ fuel n = elim (Bool-cases (ltb n 10)) [
  | inl p ↦ (n + 48, [], rw p refl)
  | inr p ↦ rw p (appended (decimal_fuel fuel (n / 10)))
]
  where
    appended : (xs : List ℕ) → (c : ℕ) × (l : List ℕ) × ((xs ++ ((n % 10 + 48) ∷ [])) ≡ c ∷ l)
    appended [] = (n % 10 + 48, [], refl)
    appended (x ∷ xs) = (x, xs ++ ((n % 10 + 48) ∷ []), refl)

isdigit-starts_name : (c : ℕ) → isdigit c ≡ true → starts_name c ≡ false
isdigit-starts_name c d = ground (arith, d)

atoi-small : (n : ℕ) → n < 65535 → atoi n ≡ n
unfolding atoi
atoi-small n h = ground (arith, h)

not_negative : (n : ℕ) → n < 65535 → leb 2147483648 n ≡ false
not_negative n h = ground (arith, h)

fits_word : (n : ℕ) → n < 65535 → ltb n 0xffff ≡ true
fits_word n h = ground (arith, h)

lex_int-digits :
    (c : ℕ) (l rest : List ℕ)
    → All (λ c. isdigit c ≡ true) l
    → number 10 0 (c ∷ l) < 65535
    → lex_int c (l ++ (10 ∷ rest))
      ≡ token (numeral asmt_int (c ∷ l) (number 10 0 (c ∷ l))) (10 ∷ rest)
unfolding lex_int
lex_int-digits c l rest h less =
    rw (span-++ isdigit l (10 ∷ rest) h refl, lex_int)
      (rw (atoi-small (number 10 0 (c ∷ l)) less) (
        rw (not_negative (number 10 0 (c ∷ l)) less) (
          rw (fits_word (number 10 0 (c ∷ l)) less)
            (ap (λ v. token (numeral asmt_int (c ∷ l) v) (10 ∷ rest)) (omega (arith, less))))))

lex_other-digits : (c : ℕ) (l : List ℕ) → isdigit c ≡ true → lex_other c l ≡ lex_int c l
unfolding lex_other
lex_other-digits c l d = rw (isdigit-starts_name c d) (rw d refl)

lex_prefixed-digits :
    (c : ℕ) (l rest : List ℕ)
    → All (λ c. isdigit c ≡ true) l
    → lex_prefixed c (l ++ (10 ∷ rest)) ≡ lex_other c (l ++ (10 ∷ rest))
unfolding lex_prefixed
lex_prefixed-digits c [] rest h = refl
lex_prefixed-digits c (x ∷ l) rest h =
    let other = λ (k : ℕ) (n : isdigit k ≡ false). ==-class isdigit x k h.0 n in
    rw (other b'x' refl) (rw (other b'X' refl) (rw (other b'b' refl) (rw (other b'B' refl) refl)))

if_same : (b : Bool) (x : Lexeme) → (if b then x else x) ≡ x
if_same true x = refl
if_same false x = refl

lex-digits :
    (c : ℕ) (l rest : List ℕ)
    → isdigit c ≡ true
    → All (λ c. isdigit c ≡ true) l
    → lex (c ∷ l ++ (10 ∷ rest)) ≡ lex_int c (l ++ (10 ∷ rest))
unfolding lex
lex-digits c l rest d h =
    let other = λ (k : ℕ) (n : isdigit k ≡ false). ==-class isdigit c k d n in
    rw (other 32 refl) (
      rw (other 9 refl) (
        rw (other 13 refl) (
          rw (other 10 refl) (
            rw (other b'}' refl) (
              rw (other b':' refl) (
                rw (other b'$' refl) (
                  rw (other b'{' refl) (
                    rw (other b'"' refl) (
                      rw (other b'-' refl) (
                        rw (lex_prefixed-digits c l rest h)
                          (if_same (c == b'0') (lex_other c (l ++ (10 ∷ rest))))
                        ∙ lex_other-digits c (l ++ (10 ∷ rest)) d))))))))))

pub lex-decimal :
    (n : ℕ) (rest : List ℕ)
    → n < 65535
    → lex (decimal n ++ (10 ∷ rest)) ≡ token (numeral asmt_int (decimal n) n) (10 ∷ rest)
lex-decimal n rest h =
    let (c, l, e) = decimal_fuel-∷ 4 n in
    let digits : All (λ c. isdigit c ≡ true) (c ∷ l) =
      subst (All (λ c. isdigit c ≡ true)) e (decimal_fuel-isdigit 5 n) in
    let value : number 10 0 (c ∷ l) ≡ n =
      ap (number 10 0) (sym e) ∙ number-decimal_fuel 5 n (omega arith) in
    rw e (
      lex-digits c l rest digits.0 digits.1
      ∙ lex_int-digits c l rest digits.1 (rw value h)
      ∙ ap (λ v. token (numeral asmt_int (c ∷ l) v) (10 ∷ rest)) value)
