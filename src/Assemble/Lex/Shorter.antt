-- ===== src/Assemble/Lex/Shorter.antt =====
-- What the switch of src/assemble.c `asm_token_next` leaves of the buffer is shorter.
use jaris.Base.{
  ℕ, suc, ◌≤◌, ◌<◌, arith, Bool, true, false, not, List, [], ◌∷◌, length, if◌then◌else◌, ◌==◌,
}
use jaris.Base.{Bool-cases, inl, inr}
use jaris.Assemble.Token.{Token}
use jaris.Assemble.Lex.{
  Lexeme, at_end, blank, macro_open, word, token, invalid, span, isdigit, is_hex, is_bin, in_name,
}
use jaris.Assemble.Lex.{
  lex_hex, lex_bin, lex_string, end_string, lex_int, lex_word, lex_other, lex_prefixed, lex_minus,
  lex,
}

-- What is left behind the lexeme has fewer than `n` characters.
pub data Shorter (n : ℕ) : Lexeme → Type 0 where
  at_end_short : Shorter n at_end
  invalid_short : Shorter n invalid
  blank_short : (rest : List ℕ) → length rest < n → Shorter n (blank rest)
  macro_open_short : (rest : List ℕ) → length rest < n → Shorter n (macro_open rest)
  word_short : (image rest : List ℕ) → length rest < n → Shorter n (word image rest)
  token_short : (t : Token) (rest : List ℕ) → length rest < n → Shorter n (token t rest)

if-Shorter :
    (b : Bool) {x y : Lexeme} {n : ℕ} → Shorter n x → Shorter n y → Shorter n (if b then x else y)
if-Shorter true h k = h
if-Shorter false h k = k

pub span-length : (test : ℕ → Bool) (l : List ℕ) → length (span test l).1 ≤ length l
unfolding span
span-length test [] = omega arith
span-length test (c ∷ l) = elim (Bool-cases (test c)) [
  | inl p ↦ rw p (omega (arith, span-length test l))
  | inr p ↦ rw p (omega arith)
]

lex_hex-Shorter : (p x : ℕ) (l : List ℕ) (n : ℕ) → length l < n → Shorter n (lex_hex p x l)
unfolding lex_hex
lex_hex-Shorter p x l n h =
    let digits = (span is_hex l).0 in
    let left : length (span is_hex l).1 < n = omega (arith, span-length is_hex l) in
    if-Shorter _
      (if-Shorter (length digits == 4) (token_short _ _ left)
        (if-Shorter (length digits == 2) (token_short _ _ left) invalid_short))
      invalid_short

lex_bin-Shorter : (p x : ℕ) (l : List ℕ) (n : ℕ) → length l < n → Shorter n (lex_bin p x l)
unfolding lex_bin
lex_bin-Shorter p x l n h =
    if-Shorter _ (token_short _ _ (omega (arith, span-length is_bin l))) invalid_short

lex_int-Shorter : (c : ℕ) (l : List ℕ) (n : ℕ) → length l < n → Shorter n (lex_int c l)
unfolding lex_int
lex_int-Shorter c l n h =
    if-Shorter _ (token_short _ _ (omega (arith, span-length isdigit l))) invalid_short

lex_word-Shorter : (c : ℕ) (l : List ℕ) (n : ℕ) → length l < n → Shorter n (lex_word c l)
unfolding lex_word
lex_word-Shorter c l n h = word_short _ _ (omega (arith, span-length in_name l))

end_string-Shorter :
    (text rest : List ℕ) (n : ℕ) → length rest < n → Shorter n (end_string (text, rest))
unfolding end_string
end_string-Shorter text [] n h = invalid_short
end_string-Shorter text (q ∷ after) n h = if-Shorter _ (token_short _ _ (omega arith)) invalid_short

lex_string-Shorter : (l : List ℕ) (n : ℕ) → length l < n → Shorter n (lex_string l)
unfolding lex_string
lex_string-Shorter l n h =
    end_string-Shorter _ _ n (omega (arith, span-length (λ c. not (c == b'"')) l))

lex_other-Shorter : (c : ℕ) (l : List ℕ) (n : ℕ) → length l < n → Shorter n (lex_other c l)
unfolding lex_other
lex_other-Shorter c l n h =
    if-Shorter _ (lex_word-Shorter c l n h) (if-Shorter _ (lex_int-Shorter c l n h) invalid_short)

lex_prefixed-Shorter : (c : ℕ) (l : List ℕ) (n : ℕ) → length l < n → Shorter n (lex_prefixed c l)
unfolding lex_prefixed
lex_prefixed-Shorter c [] n h = lex_other-Shorter c [] n h
lex_prefixed-Shorter c (x ∷ l) n h =
    if-Shorter _ (lex_hex-Shorter c x l n (omega arith))
      (if-Shorter _ (lex_bin-Shorter c x l n (omega arith)) (lex_other-Shorter c (x ∷ l) n h))

lex_minus-Shorter : (l : List ℕ) (n : ℕ) → length l < n → Shorter n (lex_minus l)
unfolding lex_minus
lex_minus-Shorter l n h =
    if-Shorter _ (blank_short _ (omega (arith, span-length (λ c. not (c == 10)) l)))
      (lex_prefixed-Shorter b'-' l n h)

pub lex-Shorter : (l : List ℕ) → Shorter (length l) (lex l)
unfolding lex
lex-Shorter [] = at_end_short
lex-Shorter (c ∷ l) =
    let h : length l < suc (length l) = omega arith in
    if-Shorter _ (blank_short _ h) (
      if-Shorter (c == b'}') (token_short _ _ h) (
        if-Shorter (c == b':') (token_short _ _ h) (
          if-Shorter (c == b'$') (token_short _ _ h) (
            if-Shorter (c == b'{') (macro_open_short _ h) (
              if-Shorter (c == b'"') (lex_string-Shorter l _ h) (
                if-Shorter (c == b'-') (lex_minus-Shorter l _ h) (
                  if-Shorter (c == b'0') (lex_prefixed-Shorter c l _ h)
                    (lex_other-Shorter c l _ h))))))))
