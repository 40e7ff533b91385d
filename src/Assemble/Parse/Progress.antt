-- ===== src/Assemble/Parse/Progress.antt =====
-- src/assemble.c `asm_parse_bytecode` returns, and a bytecode is progress in the text.
use jaris.Base.{ℕ, ◌+◌, ◌<◌, arith, Bool, true, false, List, length, ltb, ◌==◌, Option, none, some}
use jaris.Base.Outcome.{Outcome, ok, failed, ◌>>=◌, ◌>>◌, require, lift}
use jaris.Instructions.{Instruction, InstructionStat, instruction_stat}
use jaris.Instructions.InstructionStat.{no_args, arg_8bits, arg_16bits, label_arg, rellabel_arg}
use jaris.Assemble.Bytecode.{Bytecode}
use jaris.Assemble.Bytecode.Bytecode.{
  bnone, binst, binstlabel, binstrellabel, bhex, bhex2, bstring, bsetlabel, bglobal, bextern,
  balign, bdb,
}
use jaris.Assemble.Token.{Token, TokenKind, Tokenizer}
use jaris.Assemble.Token.TokenKind.{
  asmt_none, asmt_sym, asmt_inst, asmt_hex, asmt_hex2, asmt_colon, asmt_rel, asmt_global,
  asmt_extern, asmt_string, asmt_align, asmt_db, asmt_int, asmt_bin,
}
use jaris.Assemble.Tokenizer.{Step, asm_token_next}
use jaris.Assemble.Tokenizer.Progress.{
  MacrosFit, weight, slack, slack-≤, Returns, returns_failed, returns_token, read->>=,
}
use jaris.Assemble.Tokenizer.Returns.{asm_token_next-Returns}
use jaris.Assemble.Parse.{
  kind_code, asm_token_expect, bytecode_with_sv, two_chars, unquoted, arg8, parse_arg8, parse_arg16,
}
use jaris.Assemble.Parse.{
  Parsed, behind, parse_name, parse_inst, parse_token, asm_parse_bytecode, label_max_len,
}

-- The end of the text is no progress.
unfoldable pub end_slack : Bytecode → ℕ
end_slack bnone = 1
end_slack _ = 0

pub data Parses (n : ℕ) : Parsed → Type 0 where
  parses_failed : Parses n failed
  parses :
      (bc : Bytecode) (tok : Tokenizer)
      → MacrosFit tok
      → weight tok < n + end_slack bc
      → Parses n (ok (bc, tok))

-- A step that needs no fuel.
data Total {A : Type 0} : Outcome A → Type 0 where
  total_failed : Total failed
  total : (a : A) → Total (ok a)

behind-Parses :
    (n : ℕ) (tok : Tokenizer) (o : Outcome Bytecode)
    → MacrosFit tok
    → weight tok < n
    → Total o
    → Parses n (behind tok o)
behind-Parses n tok _ fit h total_failed = parses_failed
behind-Parses n tok _ fit h (total bc) = parses bc tok fit (omega arith)

require-Total : {A : Type 0} (b : Bool) (o : Outcome A) → Total o → Total (require b >> o)
require-Total false o h = total_failed
require-Total true o h = h

bytecode_with_sv-Total :
    (make : List ℕ → Bytecode) (image : List ℕ) → Total (bytecode_with_sv make image)
unfolding bytecode_with_sv
bytecode_with_sv-Total make image = require-Total (ltb (length image) label_max_len) _ (total _)

lift-Total :
    {A B : Type 0} (o : Option A) (f : A → Outcome B)
    → ((a : A) → Total (f a))
    → Total (lift o >>= f)
lift-Total none f h = total_failed
lift-Total (some a) f h = h a

parse_arg8-Total : (flags : ℕ) (i : Instruction) (arg : Token) → Total (parse_arg8 flags i arg)
unfolding parse_arg8
parse_arg8-Total flags i arg =
    lift-Total (arg8 flags arg.kind arg) _ (λ num. require-Total _ _ (total _))

parse_arg16-Total : (i : Instruction) (k : TokenKind) (arg : Token) → Total (parse_arg16 i k arg)
unfolding parse_arg16
parse_arg16-Total i asmt_hex2 arg = total _
parse_arg16-Total i asmt_sym arg = bytecode_with_sv-Total (binstlabel i) arg.image
parse_arg16-Total i asmt_string arg = lift-Total (two_chars arg.image) _ (λ n. total _)
parse_arg16-Total i _ arg = total_failed

expect-Returns :
    (kind : TokenKind) (tok : Tokenizer)
    → MacrosFit tok
    → Returns (weight tok) (asm_token_expect kind tok)
unfolding asm_token_expect
expect-Returns kind tok fit =
    read->>= (λ o. Returns (weight tok) o) (weight tok) (asm_token_next tok) _ returns_failed
      (λ t tok' fit' less. expected t tok' fit' less (kind_code t.kind == kind_code kind))
      (asm_token_next-Returns tok fit)
  where
    expected :
        (t : Token) (tok' : Tokenizer)
        → MacrosFit tok'
        → weight tok' < weight tok + slack t.kind
        → (b : Bool) → Returns (weight tok) (require b >> ok (t, tok'))
    expected t tok' fit' less false = returns_failed
    expected t tok' fit' less true = returns_token t tok' fit' less

-- A token that is read further on in a bytecode.
read-Parses :
    (n : ℕ) (tok : Tokenizer) (o : Step) (f : Token × Tokenizer → Parsed)
    → weight tok < n
    → ((t : Token) (tok' : Tokenizer) → MacrosFit tok' → weight tok' < n → Parses n (f (t, tok')))
    → Returns (weight tok) o
    → Parses n (o >>= f)
read-Parses n tok o f h k =
    read->>= (λ o. Parses n o) (weight tok) o f parses_failed
      (λ t tok' fit' less. k t tok' fit' (omega (arith, slack-≤ t.kind)))

module _ (n : ℕ) where
  parse_name-Parses :
      (make : List ℕ → Bytecode) (tok : Tokenizer)
      → MacrosFit tok
      → weight tok < n
      → Parses n (parse_name make tok)
  unfolding parse_name
  parse_name-Parses make tok fit h =
      read-Parses n tok _ _ h
        (λ arg tok' fit' h'. behind-Parses n tok' _ fit' h' (bytecode_with_sv-Total make arg.image))
        (expect-Returns asmt_sym tok fit)

  parse_inst-Parses :
      (stat : InstructionStat) (i : Instruction) (tok : Tokenizer)
      → MacrosFit tok
      → weight tok < n
      → Parses n (parse_inst stat i tok)
  unfolding parse_inst
  parse_inst-Parses no_args i tok fit h = parses (binst i) tok fit (omega arith)
  parse_inst-Parses arg_8bits i tok fit h =
      read-Parses n tok _ _ h
        (λ arg tok' fit' h'.
          behind-Parses n tok' _ fit' h' (parse_arg8-Total tok'.allowed_flags i arg))
        (asm_token_next-Returns tok fit)
  parse_inst-Parses arg_16bits i tok fit h =
      read-Parses n tok _ _ h
        (λ arg tok' fit' h'. behind-Parses n tok' _ fit' h' (parse_arg16-Total i arg.kind arg))
        (asm_token_next-Returns tok fit)
  parse_inst-Parses label_arg i tok fit h = parse_name-Parses (binstlabel i) tok fit h
  parse_inst-Parses rellabel_arg i tok fit h =
      read-Parses n tok _ _ h (λ rel tok' fit' h'. parse_name-Parses (binstrellabel i) tok' fit' h')
        (expect-Returns asmt_rel tok fit)

  parse_token-Parses :
      (k : TokenKind) (t : Token) (tok : Tokenizer)
      → MacrosFit tok
      → weight tok < n + slack k
      → Parses n (parse_token k t tok)
  unfolding parse_token slack end_slack
  parse_token-Parses asmt_none t tok fit h = parses bnone tok fit h
  parse_token-Parses asmt_sym t tok fit h =
      read-Parses n tok _ _ (omega arith)
        (λ colon tok' fit' h'.
          behind-Parses n tok' _ fit' h' (bytecode_with_sv-Total bsetlabel t.image))
        (expect-Returns asmt_colon tok fit)
  parse_token-Parses asmt_inst t tok fit h =
      parse_inst-Parses (instruction_stat t.asinst) t.asinst tok fit (omega arith)
  parse_token-Parses asmt_global t tok fit h = parse_name-Parses bglobal tok fit (omega arith)
  parse_token-Parses asmt_extern t tok fit h = parse_name-Parses bextern tok fit (omega arith)
  parse_token-Parses asmt_align t tok fit h = parses balign tok fit h
  parse_token-Parses asmt_db t tok fit h =
      read-Parses n tok _ _ (omega arith)
        (λ arg tok' fit' h'. parses (bdb arg.asnum) tok' fit' (omega arith))
        (expect-Returns asmt_int tok fit)
  parse_token-Parses asmt_hex t tok fit h = parses (bhex t.asnum) tok fit h
  parse_token-Parses asmt_hex2 t tok fit h = parses (bhex2 t.asnum) tok fit h
  parse_token-Parses asmt_string t tok fit h =
      behind-Parses n tok _ fit (omega arith) (bytecode_with_sv-Total bstring (unquoted t.image))
  parse_token-Parses asmt_bin t tok fit h = parses (bhex t.asnum) tok fit h
  parse_token-Parses _ t tok fit h = parses_failed

pub asm_parse_bytecode-Parses :
    (tok : Tokenizer) → MacrosFit tok → Parses (weight tok) (asm_parse_bytecode tok)
unfolding asm_parse_bytecode
asm_parse_bytecode-Parses tok fit =
    read->>= (λ o. Parses (weight tok) o) (weight tok) (asm_token_next tok) _ parses_failed
      (λ t tok' fit' less. parse_token-Parses (weight tok) t.kind t tok' fit' less)
      (asm_token_next-Returns tok fit)
