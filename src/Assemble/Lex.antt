-- ===== src/Assemble/Lex.antt =====
-- The switch of src/assemble.c `asm_token_next`: what stands at the head of the buffer, and what is
-- left behind it. Characters from 128 on are in no class of the C library.
pub mod Shorter
use jaris.Base.{
  ℕ, zero, suc, ◌+◌, ◌-◌, ◌*◌, Bool, true, false, not, ◌&&◌, ◌||◌, List, [], ◌∷◌, ◌++◌, map, length,
  leb, ltb, ◌==◌, u16, ◌%◌, ◌^◌,
}
use jaris.Base.{if◌then◌else◌, Option, none, some}
use jaris.Instructions.{sv_to_instruction}
use jaris.Instructions.Instruction.{nop}
use jaris.Files.Types.{str_eq}
pub use jaris.Files.Types.{codes}
use jaris.Assemble.Token.{Token, TokenKind}
use jaris.Assemble.Token.TokenKind.{
  asmt_none, asmt_sym, asmt_inst, asmt_hex, asmt_hex2, asmt_macroc, asmt_colon,
}
use jaris.Assemble.Token.TokenKind.{
  asmt_rel, asmt_global, asmt_extern, asmt_string, asmt_align, asmt_db, asmt_int, asmt_bin,
}

abbrev pub isspace : ℕ → Bool
isspace c = (leb 9 c && leb c 13) || (c == 32)

abbrev pub isdigit : ℕ → Bool
isdigit c = leb b'0' c && leb c b'9'

abbrev pub isalpha : ℕ → Bool
isalpha c = (leb b'A' c && leb c b'Z') || (leb b'a' c && leb c b'z')

-- The first character of a name, and the others.
abbrev pub starts_name : ℕ → Bool
starts_name c = isalpha c || (c == b'_')

abbrev pub in_name : ℕ → Bool
in_name c = (isalpha c || isdigit c) || (c == b'_')

abbrev pub is_hex : ℕ → Bool
is_hex c = isdigit c || ((leb b'a' c && leb c b'f') || (leb b'A' c && leb c b'F'))

abbrev pub is_bin : ℕ → Bool
is_bin c = (c == b'1') || (c == b'0')

-- The characters up to the first that fails the test, and the rest.
unfoldable pub span : (ℕ → Bool) → List ℕ → List ℕ × List ℕ
span test [] = ([], [])
span test (c ∷ l) = let rest = span test l in if test c then (c ∷ rest.0, rest.1) else ([], c ∷ l)

abbrev pub digit_value : ℕ → ℕ
digit_value c = if leb c b'9' then c - 48 else if leb c b'F' then c - 55 else c - 87

-- `strtol` and `atoi` on digits of the base.
unfoldable pub number : ℕ → ℕ → List ℕ → ℕ
number base acc [] = acc
number base acc (c ∷ digits) = number base (acc * base + digit_value c) digits

pub data Lexeme : Type 0 where
  at_end : Lexeme
  blank : List ℕ → Lexeme
  macro_open : List ℕ → Lexeme
  word : List ℕ → List ℕ → Lexeme
  token : Token → List ℕ → Lexeme
  invalid : Lexeme

abbrev pub plain : TokenKind → List ℕ → Token
plain kind image = record { kind = kind; image = image; asnum = 0; asinst = nop }

abbrev pub numeral : TokenKind → List ℕ → ℕ → Token
numeral kind image n = record { kind = kind; image = image; asnum = n; asinst = nop }

-- Whether the list starts with a character of the class; the end of the buffer is in none.
abbrev pub head_is : (ℕ → Bool) → List ℕ → Bool
head_is test [] = false
head_is test (c ∷ l) = test c

abbrev pub hex_end : ℕ → Bool
hex_end c = isspace c || (c == b'}')

-- Two or four hexadecimal digits behind the prefix `p`, `x`.
unfoldable pub lex_hex : ℕ → ℕ → List ℕ → Lexeme
lex_hex p x l =
    let (digits, rest) = span is_hex l in
    let image = p ∷ x ∷ digits in
    if head_is hex_end rest
    then (if length digits == 4
        then token (numeral asmt_hex2 image (number 16 0 digits)) rest
        else if length digits == 2
        then token (numeral asmt_hex image (number 16 0 digits)) rest
        else invalid)
    else invalid

-- Eight binary digits behind the prefix.
unfoldable pub lex_bin : ℕ → ℕ → List ℕ → Lexeme
lex_bin p x l =
    let (digits, rest) = span is_bin l in
    if length digits == 8
    then token (numeral asmt_bin (p ∷ x ∷ digits) (number 2 0 digits)) rest
    else invalid

-- The quotes are part of the image, and a space must follow.
unfoldable pub end_string : List ℕ × List ℕ → Lexeme
end_string (text, []) = invalid
end_string (text, q ∷ after) =
    if head_is isspace after
    then token (plain asmt_string (b'"' ∷ (text ++ (q ∷ [])))) after
    else invalid

unfoldable pub lex_string : List ℕ → Lexeme
lex_string l = end_string (span (λ c. not (c == b'"')) l)

-- The 32 bits of the `int` that `atoi` gives for digits of the value `n`: the C library stops at the
-- largest `long` and converts that to an `int`.
unfoldable pub atoi : ℕ → ℕ
atoi n = (if ltb n 9223372036854775808 then n else 9223372036854775807) % 2 ^ 32

-- A negative `int` passes the assertion too; the token keeps 16 bits.
unfoldable pub lex_int : ℕ → List ℕ → Lexeme
lex_int c l =
    let (digits, rest) = span isdigit l in
    let asint = atoi (number 10 0 (c ∷ digits)) in
    if leb 2147483648 asint || ltb asint 0xffff
    then token (numeral asmt_int (c ∷ digits) (u16 asint)) rest
    else invalid

unfoldable pub lex_word : ℕ → List ℕ → Lexeme
lex_word c l = let (name, rest) = span in_name l in word (c ∷ name) rest

-- The default of the switch.
unfoldable pub lex_other : ℕ → List ℕ → Lexeme
lex_other c l = if starts_name c then lex_word c l else if isdigit c then lex_int c l else invalid

-- The cases of `-` and `0`, which fall through to the default.
unfoldable pub lex_prefixed : ℕ → List ℕ → Lexeme
lex_prefixed c [] = lex_other c []
lex_prefixed c (x ∷ l) =
    if (x == b'x') || (x == b'X')
    then lex_hex c x l
    else if (x == b'b') || (x == b'B')
    then lex_bin c x l
    else lex_other c (x ∷ l)

-- A comment runs up to its newline, which stays.
unfoldable pub lex_minus : List ℕ → Lexeme
lex_minus l =
    if head_is (λ c. c == b'-') l
    then blank (span (λ c. not (c == 10)) l).1
    else lex_prefixed b'-' l

unfoldable pub lex : List ℕ → Lexeme
lex [] = at_end
lex (c ∷ l) =
    if ((c == 32) || (c == 9)) || ((c == 13) || (c == 10))
    then blank l
    else if c == b'}'
    then token (plain asmt_macroc (c ∷ [])) l
    else if c == b':'
    then token (plain asmt_colon (c ∷ [])) l
    else if c == b'$'
    then token (plain asmt_rel (c ∷ [])) l
    else if c == b'{'
    then macro_open l
    else if c == b'"'
    then lex_string l
    else if c == b'-'
    then lex_minus l
    else if c == b'0'
    then lex_prefixed c l
    else lex_other c l

-- The keywords, and all other names.
unfoldable pub keyword : List ℕ → TokenKind
keyword image =
    if str_eq (codes "GLOBAL") image
    then asmt_global
    else if str_eq (codes "EXTERN") image
    then asmt_extern
    else if str_eq (codes "ALIGN") image
    then asmt_align
    else if str_eq (codes "db") image
    then asmt_db
    else asmt_sym

-- The token of a name that is no macro.
unfoldable pub word_token : List ℕ → Token
word_token image = elim (sv_to_instruction image) [
  | some i ↦ record { kind = asmt_inst; image = image; asnum = 0; asinst = i }
  | none ↦ plain (keyword image) image
]
