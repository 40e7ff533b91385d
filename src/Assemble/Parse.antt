-- ===== src/Assemble/Parse.antt =====
-- src/assemble.c `asm_token_expect` and `asm_parse_bytecode`. A `char` is signed where its value is
-- used; a name or a string that does not fit the 128 characters of a bytecode ends in `failed`.
pub mod Progress
use jaris.Base.{
  ℕ, ◌+◌, ◌*◌, ◌%◌, Bool, true, false, List, [], ◌∷◌, length, leb, ltb, ◌==◌, Option, none, some,
  bit_or, if◌then◌else◌, not, ◌&&◌, ◌||◌,
}
use jaris.Base.Outcome.{Outcome, ok, failed, ◌>>=◌, ◌>>◌, require, lift}
use jaris.Instructions.{Instruction, InstructionStat, instruction_stat, opcode}
use jaris.Instructions.Instruction.{peekar, pushar}
use jaris.Instructions.InstructionStat.{no_args, arg_8bits, arg_16bits, label_arg, rellabel_arg}
use jaris.Assemble.Bytecode.{Bytecode}
use jaris.Assemble.Bytecode.Bytecode.{
  bnone, binst, binsthex, binsthex2, binstlabel, binstrellabel, bhex, bhex2, bstring, bsetlabel,
  bglobal, bextern, balign, bdb,
}
use jaris.Assemble.Token.{Token, TokenKind, Tokenizer}
use jaris.Assemble.Token.TokenKind.{
  asmt_none, asmt_sym, asmt_inst, asmt_hex, asmt_hex2, asmt_macroo, asmt_macroc, asmt_colon,
  asmt_rel, asmt_global, asmt_extern, asmt_string, asmt_align, asmt_db, asmt_int, asmt_bin,
}
use jaris.Assemble.Tokenizer.{Step, asm_token_next}

abbrev pub label_max_len : ℕ
label_max_len = 128

-- The value of each enumerator.
unfoldable pub kind_code : TokenKind → ℕ
kind_code asmt_none = 0
kind_code asmt_sym = 1
kind_code asmt_inst = 2
kind_code asmt_hex = 3
kind_code asmt_hex2 = 4
kind_code asmt_macroo = 5
kind_code asmt_macroc = 6
kind_code asmt_colon = 7
kind_code asmt_rel = 8
kind_code asmt_global = 9
kind_code asmt_extern = 10
kind_code asmt_string = 11
kind_code asmt_align = 12
kind_code asmt_db = 13
kind_code asmt_int = 14
kind_code asmt_bin = 15

unfoldable pub asm_token_expect : TokenKind → Tokenizer → Step
asm_token_expect kind tok = do
  (t, tok) ← asm_token_next tok
  require (kind_code t.kind == kind_code kind)
  ok (t, tok)

-- The memory behind a bytecode's string is zeroed, so one character must be left for its end.
unfoldable pub bytecode_with_sv : (List ℕ → Bytecode) → List ℕ → Outcome Bytecode
bytecode_with_sv make image = require (ltb (length image) label_max_len) >> ok (make image)

-- A signed character as 16 bits.
abbrev pub char_word : ℕ → ℕ
char_word c = if ltb c 128 then c else c + 65280

-- The character of a string of one, and the two of a string of two, in their quotes.
unfoldable pub one_char : List ℕ → Option ℕ
one_char (q ∷ c ∷ q' ∷ []) = some (char_word c)
one_char _ = none

unfoldable pub two_chars : List ℕ → Option ℕ
two_chars (q ∷ c ∷ d ∷ q' ∷ []) = some (bit_or (char_word c) (char_word d * 256 % 65536))
two_chars _ = none

-- A string without its quotes.
unfoldable pub but_last : List ℕ → List ℕ
but_last [] = []
but_last (c ∷ []) = []
but_last (c ∷ d ∷ l) = c ∷ but_last (d ∷ l)

unfoldable pub unquoted : List ℕ → List ℕ
unquoted [] = []
unquoted (q ∷ string) = but_last string

-- What an argument of 8 bits is, when it is one.
unfoldable pub arg8 : ℕ → TokenKind → Token → Option ℕ
arg8 allowed_flags asmt_hex arg = some arg.asnum
arg8 allowed_flags asmt_bin arg = some arg.asnum
arg8 allowed_flags asmt_string arg = one_char arg.image
arg8 allowed_flags asmt_inst arg = if allowed_flags % 2 == 1 then some (opcode arg.asinst) else none
arg8 allowed_flags _ arg = none

abbrev pub is_relative : Instruction → Bool
is_relative i = (opcode i == opcode peekar) || (opcode i == opcode pushar)

unfoldable pub parse_arg8 : ℕ → Instruction → Token → Outcome Bytecode
parse_arg8 allowed_flags i arg = do
  num ← lift (arg8 allowed_flags arg.kind arg)
  require (not (is_relative i && not (num % 2 == 0)))
  ok (binsthex i num)

abbrev pub word_arg : Instruction → Option ℕ → Outcome Bytecode
word_arg i num = lift num >>= λ n. ok (binsthex2 i n)

unfoldable pub parse_arg16 : Instruction → TokenKind → Token → Outcome Bytecode
parse_arg16 i asmt_hex2 arg = ok (binsthex2 i arg.asnum)
parse_arg16 i asmt_sym arg = bytecode_with_sv (binstlabel i) arg.image
parse_arg16 i asmt_string arg = word_arg i (two_chars arg.image)
parse_arg16 i _ arg = failed

abbrev pub Parsed : Type 0
Parsed = Outcome (Bytecode × Tokenizer)

-- A bytecode, and where the tokenizer is behind it.
abbrev pub behind : Tokenizer → Outcome Bytecode → Parsed
behind tok o = o >>= λ bc. ok (bc, tok)

-- The name that follows.
unfoldable pub parse_name : (List ℕ → Bytecode) → Tokenizer → Parsed
parse_name make tok = do
  (arg, tok) ← asm_token_expect asmt_sym tok
  behind tok (bytecode_with_sv make arg.image)

-- The argument of an instruction.
unfoldable pub parse_inst : InstructionStat → Instruction → Tokenizer → Parsed
parse_inst no_args i tok = ok (binst i, tok)
parse_inst arg_8bits i tok = do
  (arg, tok) ← asm_token_next tok
  behind tok (parse_arg8 tok.allowed_flags i arg)
parse_inst arg_16bits i tok = do
  (arg, tok) ← asm_token_next tok
  behind tok (parse_arg16 i arg.kind arg)
parse_inst label_arg i tok = parse_name (binstlabel i) tok
parse_inst rellabel_arg i tok = do
  (rel, tok) ← asm_token_expect asmt_rel tok
  parse_name (binstrellabel i) tok

unfoldable pub parse_token : TokenKind → Token → Tokenizer → Parsed
parse_token asmt_none t tok = ok (bnone, tok)
parse_token asmt_sym t tok = do
  (colon, tok) ← asm_token_expect asmt_colon tok
  behind tok (bytecode_with_sv bsetlabel t.image)
parse_token asmt_inst t tok = parse_inst (instruction_stat t.asinst) t.asinst tok
parse_token asmt_global t tok = parse_name bglobal tok
parse_token asmt_extern t tok = parse_name bextern tok
parse_token asmt_align t tok = ok (balign, tok)
parse_token asmt_db t tok = do (arg, tok) ← asm_token_expect asmt_int tok; ok (bdb arg.asnum, tok)
parse_token asmt_hex t tok = ok (bhex t.asnum, tok)
parse_token asmt_hex2 t tok = ok (bhex2 t.asnum, tok)
parse_token asmt_string t tok = behind tok (bytecode_with_sv bstring (unquoted t.image))
parse_token asmt_bin t tok = ok (bhex t.asnum, tok)
parse_token _ t tok = failed

unfoldable pub asm_parse_bytecode : Tokenizer → Parsed
asm_parse_bytecode tok = do (t, tok) ← asm_token_next tok; parse_token t.kind t tok
