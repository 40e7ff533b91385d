-- ===== src/Assemble/Print/Reads.antt =====
-- What src/assemble.c `asm_token_next` reads of a text without macros: the lexeme at its head.
use jaris.Base.{
  ℕ, ◌/◌, ◌%◌, ◌<◌, ◌≡◌, refl, ap, sym, ◌∙◌, arith, Bool, true, false, not, List, [], ◌∷◌, ◌++◌,
  length, ltb, ◌==◌, All, if◌then◌else◌, Bool-cases, ==_iff, inl, inr,
}
use mathlib.Core.Bool.{true≢false}
use jaris.Base.Outcome.{ok}
use jaris.Assemble.Token.{Token, Tokenizer}
use jaris.Assemble.Token.TokenKind.{asmt_hex, asmt_hex2, asmt_string}
use jaris.Assemble.Lex.{
  token, word, lex, span, number, head_is, starts_name, in_name, is_hex, word_token, numeral, plain,
  lex_word, lex_other, lex_prefixed, lex_hex, lex_string, end_string, digit_value, invalid,
}
use jaris.Assemble.Tokenizer.{
  asm_tokenizer_init, asm_token_next, token_next_fuel, token_next_from, next_lexeme, next_word,
  find_macro, is_sym, Step,
}
use jaris.Assemble.Print.{hex_digit, hex2, hex4}

pub asm_token_next-token :
    (buffer rest : List ℕ) (t : Token) (flags : ℕ)
    → lex buffer ≡ token t rest
    → asm_token_next (asm_tokenizer_init buffer flags) ≡ ok (t, asm_tokenizer_init rest flags)
unfolding asm_token_next token_next_fuel token_next_from next_lexeme
asm_token_next-token buffer rest t flags e = rw e refl

pub asm_token_next-word :
    (buffer image rest : List ℕ) (flags : ℕ)
    → lex buffer ≡ word image rest
    → asm_token_next (asm_tokenizer_init buffer flags)
      ≡ ok (word_token image, asm_tokenizer_init rest flags)
unfolding asm_token_next token_next_fuel token_next_from next_lexeme next_word find_macro
asm_token_next-word buffer image rest flags e = rw e (named (is_sym (word_token image).kind))
  where
    t : Token × Tokenizer
    t = (word_token image, asm_tokenizer_init rest flags)

    named : (b : Bool) → elim b as (λ _. Step) [ false ↦ ok t | true ↦ ok t ] ≡ ok t
    named true = refl
    named false = refl

-- White space in front of a token.
pub asm_token_next-space :
    (buffer : List ℕ) (flags : ℕ)
    → asm_token_next (asm_tokenizer_init (32 ∷ buffer) flags)
      ≡ asm_token_next (asm_tokenizer_init buffer flags)
unfolding asm_token_next token_next_fuel token_next_from next_lexeme lex
asm_token_next-space buffer flags = refl

pub asm_token_next-newline :
    (buffer : List ℕ) (flags : ℕ)
    → asm_token_next (asm_tokenizer_init (10 ∷ buffer) flags)
      ≡ asm_token_next (asm_tokenizer_init buffer flags)
unfolding asm_token_next token_next_fuel token_next_from next_lexeme lex
asm_token_next-newline buffer flags = refl

pub span-++ :
    (test : ℕ → Bool) (xs rest : List ℕ)
    → All (λ c. test c ≡ true) xs
    → head_is test rest ≡ false
    → span test (xs ++ rest) ≡ (xs, rest)
unfolding span
span-++ test [] [] h e = refl
span-++ test [] (c ∷ rest) h e = rw e refl
span-++ test (x ∷ xs) rest h e = rw h.0 (rw (span-++ test xs rest h.1 e) refl)

-- A character of a class is none outside of it.
pub ==-class : (class : ℕ → Bool) (c k : ℕ) → class c ≡ true → class k ≡ false → (c == k) ≡ false
==-class class c k s n = elim (Bool-cases (c == k)) [
  | inl p ↦ absurd (true≢false (sym s ∙ ap class ((==_iff c k).0 p) ∙ n))
  | inr p ↦ p
]

-- A name in front of what no name holds.
pub lex-name :
    (c : ℕ) (name rest : List ℕ)
    → starts_name c ≡ true
    → All (λ c. in_name c ≡ true) name
    → head_is in_name rest ≡ false
    → lex (c ∷ name ++ rest) ≡ word (c ∷ name) rest
unfolding lex lex_other lex_word
lex-name c name rest s h e =
    let other = λ (k : ℕ) (n : starts_name k ≡ false). ==-class starts_name c k s n in
    rw (other 32 refl) (
      rw (other 9 refl) (
        rw (other 13 refl) (
          rw (other 10 refl) (
            rw (other b'}' refl) (
              rw (other b':' refl) (
                rw (other b'$' refl) (
                  rw (other b'{' refl) (
                    rw (other b'"' refl) (
                      rw (other b'-' refl) (
                        rw (other b'0' refl)
                          (rw s (rw (span-++ in_name name rest h e) refl))))))))))))

hex_digit-is_hex : (n : ℕ) → n < 16 → is_hex (hex_digit n) ≡ true
hex_digit-is_hex n h = ground arith

ltb-true : (n m : ℕ) → n < m → ltb n m ≡ true
ltb-true n m h = ground arith

digit_value-hex_digit : (n : ℕ) → n < 16 → digit_value (hex_digit n) ≡ n
digit_value-hex_digit n h = ground arith

mod16-< : (n : ℕ) → n % 16 < 16
mod16-< n = omega arith

number-hex4 : (n : ℕ) → n < 65536 → number 16 0 (hex4 n) ≡ n
unfolding number hex4
number-hex4 n h =
    let value = λ (k : ℕ). digit_value-hex_digit (k % 16) (mod16-< k) in
    rw (value (n / 4096)) (rw (value (n / 256)) (rw (value (n / 16)) (rw (value n) (omega arith))))

number-hex2 : (n : ℕ) → n < 256 → number 16 0 (hex2 n) ≡ n
unfolding number hex2
number-hex2 n h =
    let value = λ (k : ℕ). digit_value-hex_digit (k % 16) (mod16-< k) in
    rw (ltb-true n 256 h) (rw (value (n / 16)) (rw (value n) (omega arith)))

hex4-is_hex : (n : ℕ) → All (λ c. is_hex c ≡ true) (hex4 n)
unfolding hex4
hex4-is_hex n =
    let digit = λ (k : ℕ). hex_digit-is_hex (k % 16) (mod16-< k) in
    (digit (n / 4096), (digit (n / 256), (digit (n / 16), (digit n, tt))))

hex2-is_hex : (n : ℕ) → n < 256 → All (λ c. is_hex c ≡ true) (hex2 n)
unfolding hex2
hex2-is_hex n h =
    let digit = λ (k : ℕ). hex_digit-is_hex (k % 16) (mod16-< k) in
    rw (ltb-true n 256 h) (digit (n / 16), (digit n, tt))

length-hex2 : (n : ℕ) → n < 256 → length (hex2 n) ≡ 2
unfolding hex2
length-hex2 n h = rw (ltb-true n 256 h) refl

length-hex4 : (n : ℕ) → length (hex4 n) ≡ 4
unfolding hex4
length-hex4 n = refl

-- `0x` and digits, at the end of a line.
lex_hex-digits :
    (digits rest : List ℕ)
    → All (λ c. is_hex c ≡ true) digits
    → lex_hex 48 120 (digits ++ (10 ∷ rest)) ≡ (
        if length digits == 4
        then token (numeral asmt_hex2 (48 ∷ 120 ∷ digits) (number 16 0 digits)) (10 ∷ rest)
        else if length digits == 2
        then token (numeral asmt_hex (48 ∷ 120 ∷ digits) (number 16 0 digits)) (10 ∷ rest)
        else invalid)
unfolding lex_hex
lex_hex-digits digits rest h = rw (span-++ is_hex digits (10 ∷ rest) h refl) refl

pub lex-hex4 :
    (n : ℕ) (rest : List ℕ)
    → n < 65536
    → lex (48 ∷ 120 ∷ hex4 n ++ (10 ∷ rest))
      ≡ token (numeral asmt_hex2 (48 ∷ 120 ∷ hex4 n) n) (10 ∷ rest)
unfolding lex lex_prefixed
lex-hex4 n rest h =
    lex_hex-digits (hex4 n) rest (hex4-is_hex n) ∙ rw (length-hex4 n) (rw (number-hex4 n h) refl)

pub lex-hex2 :
    (n : ℕ) (rest : List ℕ)
    → n < 256
    → lex (48 ∷ 120 ∷ hex2 n ++ (10 ∷ rest))
      ≡ token (numeral asmt_hex (48 ∷ 120 ∷ hex2 n) n) (10 ∷ rest)
unfolding lex lex_prefixed
lex-hex2 n rest h =
    lex_hex-digits (hex2 n) rest (hex2-is_hex n h)
    ∙ rw (length-hex2 n h) (rw (number-hex2 n h) refl)

lex_string-quoted :
    (string rest : List ℕ)
    → All (λ c. not (c == b'"') ≡ true) string
    → lex_string (string ++ (b'"' ∷ 10 ∷ rest))
      ≡ token (plain asmt_string (b'"' ∷ string ++ (b'"' ∷ []))) (10 ∷ rest)
unfolding lex_string end_string
lex_string-quoted string rest h =
    ap end_string (span-++ (λ c. not (c == b'"')) string (b'"' ∷ 10 ∷ rest) h refl)

pub lex-string :
    (string rest : List ℕ)
    → All (λ c. not (c == b'"') ≡ true) string
    → lex (b'"' ∷ string ++ (b'"' ∷ 10 ∷ rest))
      ≡ token (plain asmt_string (b'"' ∷ string ++ (b'"' ∷ []))) (10 ∷ rest)
unfolding lex
lex-string string rest h = lex_string-quoted string rest h
