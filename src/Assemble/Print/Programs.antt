-- ===== src/Assemble/Print/Programs.antt =====
-- Printed programs of src/instructions.c `bytecode_to_asm` are parsed and assembled by
-- src/assemble.c as the bytecodes that they were printed from.
use jaris.Base.{
  ℕ, zero, suc, ◌<◌, ◌≤◌, ◌≡◌, refl, ap, subst, ◌∙◌, arith, Bool, true, false, List, [], ◌∷◌, ◌++◌,
  length, length-append, All, Option, none, some, some_injective, inl, inr, >>=-some, ◌>>=◌,
}
use jaris.Base.Outcome
use jaris.Base.Outcome.{ok, lift}
use jaris.Files.Types.{Obj}
use jaris.Assemble.Bytecode.{Bytecode}
use jaris.Assemble.Bytecode.Bytecode.{
  bnone, binst, binsthex, binsthex2, binstlabel, binstrellabel, bhex, bhex2, bstring, bsetlabel,
  bglobal, bextern, balign, bdb,
}
use jaris.Assemble.Lex.{lex}
use jaris.Assemble.Tokenizer.{
  asm_tokenizer_init, asm_token_next, token_next_fuel, token_next_from, next_lexeme,
}
use jaris.Assemble.Token.{Tokenizer}
use jaris.Assemble.Tokenizer.Progress.{weight, pending}
use jaris.Assemble.Parse.{asm_parse_bytecode, parse_token}
use jaris.Assemble.Compile.{compile}
use jaris.Assemble.Check.{obj_check}
use jaris.Assemble.Object.{no_obj}
use jaris.Assemble.Text.{parse_fuel, parse, assemble, is_bnone}
use jaris.Assemble.Text.Passes.{assemble-parse}
use jaris.Assemble.Print.{bytecode_to_asm, program_to_asm, IsSource}
use jaris.Assemble.Print.Reads.{asm_token_next-newline}
use jaris.Assemble.Print.Lines.{all_are-All}
use jaris.Assemble.Print.RoundTrip.{
  ReadsAs, binst-reads, binsthex-reads, binsthex2-reads, label_arg-reads, word_arg-reads,
  rellabel-reads, bhex-reads, bhex2-reads, bstring-reads, bsetlabel-reads, bglobal-reads,
  bextern-reads, balign-reads, bdb-reads,
}

-- The line of a bytecode is read as that bytecode.
line-reads :
    (bc : Bytecode) (line : List ℕ) → bytecode_to_asm bc ≡ some line → IsSource bc → ReadsAs bc line
unfolding bytecode_to_asm IsSource
line-reads bnone line e s = absurd s
line-reads (binst i) line e s = subst (ReadsAs (binst i)) (some_injective e) (binst-reads i s)
line-reads (binsthex i num) line e s =
    subst (ReadsAs (binsthex i num)) (some_injective e) (binsthex-reads i num s.0 s.1 s.2)
line-reads (binsthex2 i num) line e s =
    subst (ReadsAs (binsthex2 i num)) (some_injective e) (binsthex2-reads i num s.0 s.1)
line-reads (binstlabel i name) line e (inl s, l) =
    subst (ReadsAs (binstlabel i name)) (some_injective e) (word_arg-reads i name s l)
line-reads (binstlabel i name) line e (inr s, l) =
    subst (ReadsAs (binstlabel i name)) (some_injective e) (label_arg-reads i name s l)
line-reads (binstrellabel i name) line e s =
    subst (ReadsAs (binstrellabel i name)) (some_injective e) (rellabel-reads i name s.0 s.1)
line-reads (bhex num) line e s = subst (ReadsAs (bhex num)) (some_injective e) (bhex-reads num s)
line-reads (bhex2 num) line e s = subst (ReadsAs (bhex2 num)) (some_injective e) (bhex2-reads num s)
line-reads (bstring string) line e s =
    subst (ReadsAs (bstring string)) (some_injective e)
      (bstring-reads string (all_are-All _ string s.0) s.1)
line-reads (bsetlabel name) line e s =
    subst (ReadsAs (bsetlabel name)) (some_injective e) (bsetlabel-reads name s)
line-reads (bglobal name) line e s =
    subst (ReadsAs (bglobal name)) (some_injective e) (bglobal-reads name s)
line-reads (bextern name) line e s =
    subst (ReadsAs (bextern name)) (some_injective e) (bextern-reads name s)
line-reads balign line e s = subst (ReadsAs balign) (some_injective e) balign-reads
line-reads (bdb num) line e s = subst (ReadsAs (bdb num)) (some_injective e) (bdb-reads num s)

-- A line that is printed and read back.
pub asm_parse_bytecode-bytecode_to_asm :
    (bc : Bytecode) (line rest : List ℕ) (flags : ℕ)
    → bytecode_to_asm bc ≡ some line
    → IsSource bc
    → asm_parse_bytecode (asm_tokenizer_init (line ++ (10 ∷ rest)) flags)
      ≡ ok (bc, asm_tokenizer_init (10 ∷ rest) flags)
asm_parse_bytecode-bytecode_to_asm bc line rest flags e s = line-reads bc line e s rest flags

parse_fuel-newline :
    (fuel : ℕ) (buffer : List ℕ) (flags : ℕ)
    → parse_fuel fuel (asm_tokenizer_init (10 ∷ buffer) flags)
      ≡ parse_fuel fuel (asm_tokenizer_init buffer flags)
unfolding parse_fuel asm_parse_bytecode
parse_fuel-newline zero buffer flags = refl
parse_fuel-newline (suc fuel) buffer flags = rw (asm_token_next-newline buffer flags) refl

source-is_bnone : (bc : Bytecode) → IsSource bc → is_bnone bc ≡ false
unfolding IsSource
source-is_bnone bnone s = absurd s
source-is_bnone _ s = refl

-- The end of the text.
asm_parse_bytecode-nil :
    (flags : ℕ)
    → asm_parse_bytecode (asm_tokenizer_init [] flags) ≡ ok (bnone, asm_tokenizer_init [] flags)
unfolding asm_parse_bytecode asm_token_next token_next_fuel token_next_from next_lexeme lex
    parse_token
asm_parse_bytecode-nil flags = refl

parse_fuel-bytecode :
    (fuel : ℕ) (tok tok' : Tokenizer) (bc : Bytecode) (l : List Bytecode)
    → asm_parse_bytecode tok ≡ ok (bc, tok')
    → is_bnone bc ≡ false
    → parse_fuel fuel tok' ≡ ok l
    → parse_fuel (suc fuel) tok ≡ ok (bc ∷ l)
unfolding parse_fuel
parse_fuel-bytecode fuel tok tok' bc l e n p = rw e (goes_on (is_bnone bc) n)
  where
    goes_on :
        (b : Bool)
        → b ≡ false
        → (elim b as (λ _. Outcome.Outcome (List Bytecode)) [
          | true ↦ ok []
          | false ↦ Outcome.◌>>=◌ (parse_fuel fuel tok') (λ l. ok (bc ∷ l))
        ])
          ≡ ok (bc ∷ l)
    goes_on true h = cc
    goes_on false h = ap (λ o. Outcome.◌>>=◌ o (λ l. ok (bc ∷ l))) p

parse_fuel-program_to_asm :
    (fuel : ℕ) (bytecodes : List Bytecode) (text : List ℕ) (flags : ℕ)
    → length bytecodes < fuel
    → program_to_asm bytecodes ≡ some text
    → All IsSource bytecodes
    → parse_fuel fuel (asm_tokenizer_init text flags) ≡ ok bytecodes
unfolding parse_fuel program_to_asm
parse_fuel-program_to_asm zero l text flags h e s = absurd (omega (arith, h))
parse_fuel-program_to_asm (suc fuel) [] text flags h e s =
    subst (λ t. parse_fuel (suc fuel) (asm_tokenizer_init t flags) ≡ ok []) (some_injective e)
      (rw (asm_parse_bytecode-nil flags) refl)
parse_fuel-program_to_asm (suc fuel) (bc ∷ l) text flags h e s =
    let (line, printed, behind) = >>=-some (bytecode_to_asm bc) _ text e in
    let (lines, others, out) = >>=-some (program_to_asm l) _ text behind in
    subst (λ t. parse_fuel (suc fuel) (asm_tokenizer_init t flags) ≡ ok (bc ∷ l))
      (some_injective out)
      (parse_fuel-bytecode fuel _ _ bc l (line-reads bc line printed s.0 lines flags)
        (source-is_bnone bc s.0)
        (parse_fuel-newline fuel lines flags
          ∙ parse_fuel-program_to_asm fuel l lines flags (omega arith) others s.1))

length-program_to_asm :
    (bytecodes : List Bytecode) (text : List ℕ)
    → program_to_asm bytecodes ≡ some text
    → length bytecodes ≤ length text
unfolding program_to_asm
length-program_to_asm [] text e = omega arith
length-program_to_asm (bc ∷ l) text e =
    let (line, printed, behind) = >>=-some (bytecode_to_asm bc) _ text e in
    let (lines, others, out) = >>=-some (program_to_asm l) _ text behind in
    subst (λ t. suc (length l) ≤ length t) (some_injective out)
      (omega (arith, length-program_to_asm l lines others, length-append line (10 ∷ lines)))

-- A program that is printed and parsed again.
pub parse-program_to_asm :
    (bytecodes : List Bytecode) (text : List ℕ) (flags : ℕ)
    → program_to_asm bytecodes ≡ some text
    → All IsSource bytecodes
    → parse text flags ≡ ok bytecodes
unfolding parse weight pending
parse-program_to_asm l text flags e s =
    parse_fuel-program_to_asm _ l text flags (omega (arith, length-program_to_asm l text e)) e s

-- A program that is printed and assembled gives the object that its bytecodes compile to.
pub assemble-program_to_asm :
    (bytecodes : List Bytecode) (text : List ℕ) (debug_info : Bool) (flags : ℕ)
    → program_to_asm bytecodes ≡ some text
    → All IsSource bytecodes
    → assemble text debug_info flags ≡ lift (compile bytecodes no_obj >>= obj_check debug_info)
assemble-program_to_asm l text debug_info flags e s =
    assemble-parse text debug_info flags
    ∙ rw (parse-program_to_asm l text flags e s) (lifted (compile l no_obj))
  where
    lifted :
        (o : Option Obj)
        → Outcome.◌>>=◌ (lift o) (λ obj. lift (obj_check debug_info obj))
          ≡ lift (o >>= obj_check debug_info)
    lifted none = refl
    lifted (some obj) = refl
