-- ===== src/Assemble/Print/Lines.antt =====
-- src/assemble.c `asm_parse_bytecode` on the pieces of a line: mnemonics, names and arguments.
use jaris.Base.{
  ℕ, ◌≡◌, refl, ap, ◌∙◌, Bool, true, false, List, [], ◌∷◌, ◌++◌, ==_self, All, Option, none, some,
  &&-true,
}
use jaris.Base.Outcome.{ok}
use jaris.Instructions.{Instruction, instruction_stat, instruction_to_string, sv_to_instruction}
use jaris.Files.Types.{str_eq}
use jaris.Assemble.Bytecode.{Bytecode}
use jaris.Assemble.Token.{Token, TokenKind, Tokenizer}
use jaris.Assemble.Token.TokenKind.{asmt_sym, asmt_inst}
use jaris.Assemble.Lex.{word, lex, head_is, starts_name, in_name, word_token, keyword, plain}
use jaris.Assemble.Tokenizer.{asm_tokenizer_init, asm_token_next}
use jaris.Assemble.Parse.{
  kind_code, asm_token_expect, bytecode_with_sv, parse_name, parse_inst, parse_token,
  asm_parse_bytecode,
}
use jaris.Assemble.Print.{mnemonic, all_are, is_name, IsLabel}
use jaris.Assemble.Print.Reads.{asm_token_next-word, asm_token_next-space, lex-name}

pub all_are-All :
    (test : ℕ → Bool) (l : List ℕ) → all_are test l ≡ true → All (λ c. test c ≡ true) l
unfolding all_are
all_are-All test [] e = tt
all_are-All test (c ∷ l) e = ((&&-true (test c) _ e).0, all_are-All test l (&&-true (test c) _ e).1)

pub lex-is_name :
    (name rest : List ℕ)
    → is_name name ≡ true
    → head_is in_name rest ≡ false
    → lex (name ++ rest) ≡ word name rest
unfolding is_name
lex-is_name [] rest n e = cc
lex-is_name (c ∷ l) rest n e =
    let (s, h) = &&-true (starts_name c) _ n in lex-name c l rest s (all_are-All in_name l h) e

mnemonic-is_name : (i : Instruction) → is_name (mnemonic i) ≡ true
unfolding is_name all_are instruction_to_string
mnemonic-is_name Instruction.nop = refl
mnemonic-is_name _ = refl

-- The token of a mnemonic.
abbrev inst_token : Instruction → Token
inst_token i = record { kind = asmt_inst; image = mnemonic i; asnum = 0; asinst = i }

word_token-mnemonic : (i : Instruction) → word_token (mnemonic i) ≡ inst_token i
unfolding word_token sv_to_instruction str_eq instruction_to_string
word_token-mnemonic Instruction.nop = refl
word_token-mnemonic _ = refl

word_token-image : (image : List ℕ) → (word_token image).image ≡ image
unfolding word_token
word_token-image image = found (sv_to_instruction image)
  where
    found :
        (o : Option Instruction)
        → (elim o as (λ _. Token) [
          | some i ↦ record { kind = asmt_inst; image = image; asnum = 0; asinst = i }
          | none ↦ plain (keyword image) image
        ]).image
          ≡ image
    found none = refl
    found (some i) = refl

pub asm_token_expect-kind :
    (kind : TokenKind) (tok tok' : Tokenizer) (t : Token)
    → asm_token_next tok ≡ ok (t, tok')
    → t.kind ≡ kind
    → asm_token_expect kind tok ≡ ok (t, tok')
unfolding asm_token_expect
asm_token_expect-kind kind tok tok' t e k = rw e (rw k (rw (==_self (kind_code kind)) refl))

pub asm_token_expect-space :
    (kind : TokenKind) (buffer : List ℕ) (flags : ℕ)
    → asm_token_expect kind (asm_tokenizer_init (32 ∷ buffer) flags)
      ≡ asm_token_expect kind (asm_tokenizer_init buffer flags)
unfolding asm_token_expect
asm_token_expect-space kind buffer flags = rw (asm_token_next-space buffer flags) refl

-- A bytecode is what its first token says.
pub asm_parse_bytecode-token :
    (tok tok' : Tokenizer) (t : Token)
    → asm_token_next tok ≡ ok (t, tok')
    → asm_parse_bytecode tok ≡ parse_token t.kind t tok'
unfolding asm_parse_bytecode
asm_parse_bytecode-token tok tok' t e = rw e refl

pub asm_parse_bytecode-mnemonic :
    (i : Instruction) (rest : List ℕ) (flags : ℕ)
    → head_is in_name rest ≡ false
    → asm_parse_bytecode (asm_tokenizer_init (mnemonic i ++ rest) flags)
      ≡ parse_inst (instruction_stat i) i (asm_tokenizer_init rest flags)
unfolding parse_token
asm_parse_bytecode-mnemonic i rest flags h =
    asm_parse_bytecode-token _ (asm_tokenizer_init rest flags) (inst_token i) (
      asm_token_next-word (mnemonic i ++ rest) (mnemonic i) rest flags
        (lex-is_name (mnemonic i) rest (mnemonic-is_name i) h)
      ∙ ap (λ t. ok (t, asm_tokenizer_init rest flags)) (word_token-mnemonic i))

pub asm_token_next-label :
    (name rest : List ℕ) (flags : ℕ)
    → IsLabel name
    → head_is in_name rest ≡ false
    → asm_token_next (asm_tokenizer_init (name ++ rest) flags)
      ≡ ok (word_token name, asm_tokenizer_init rest flags)
asm_token_next-label name rest flags l h =
    asm_token_next-word (name ++ rest) name rest flags (lex-is_name name rest l.spelled h)

pub bytecode_with_sv-label :
    (make : List ℕ → Bytecode) (name : List ℕ)
    → IsLabel name
    → bytecode_with_sv make (word_token name).image ≡ ok (make name)
unfolding bytecode_with_sv
bytecode_with_sv-label make name l = rw (word_token-image name) (rw l.fits refl)

pub parse_name-label :
    (make : List ℕ → Bytecode) (name rest : List ℕ) (flags : ℕ)
    → IsLabel name
    → head_is in_name rest ≡ false
    → parse_name make (asm_tokenizer_init (name ++ rest) flags)
      ≡ ok (make name, asm_tokenizer_init rest flags)
unfolding parse_name
parse_name-label make name rest flags l h =
    rw
      (asm_token_expect-kind asmt_sym _ (asm_tokenizer_init rest flags) (word_token name)
        (asm_token_next-label name rest flags l h) l.not_reserved)
      (rw (bytecode_with_sv-label make name l) refl)

pub parse_name-space :
    (make : List ℕ → Bytecode) (buffer : List ℕ) (flags : ℕ)
    → parse_name make (asm_tokenizer_init (32 ∷ buffer) flags)
      ≡ parse_name make (asm_tokenizer_init buffer flags)
unfolding parse_name
parse_name-space make buffer flags = rw (asm_token_expect-space asmt_sym buffer flags) refl
