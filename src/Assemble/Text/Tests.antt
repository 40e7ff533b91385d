-- ===== src/Assemble/Text/Tests.antt =====
-- Runs of src/assemble.c on texts, and the theorems on the tokenizer, the parser and the printer at
-- a text with a macro, a comment, labels and numbers.
use jaris.Base.{ℕ, ◌≡◌, ◌≢◌, refl, false, List, [], ◌∷◌, All, some, inl, arith, ◌>>=◌}
use jaris.Base.Outcome.{ok, failed, out_of_fuel, lift}
use jaris.Instructions.Instruction.{jmpr, ram_al, ram_a, hlt}
use jaris.Assemble.Bytecode.{Bytecode}
use jaris.Assemble.Bytecode.Bytecode.{
  binst, binsthex, binsthex2, binstlabel, binstrellabel, bsetlabel, bglobal, bdb, bstring, bhex,
}
use jaris.Assemble.Lex.{codes}
use jaris.Assemble.Tokenizer.{asm_tokenizer_init, asm_token_next}
use jaris.Assemble.Tokenizer.Progress.{Returns, weight, MacrosFit}
use jaris.Assemble.Tokenizer.Returns.{asm_token_next-Returns}
use jaris.Assemble.Parse.{asm_parse_bytecode}
use jaris.Assemble.Compile.{compile}
use jaris.Assemble.Check.{obj_check}
use jaris.Assemble.Object.{no_obj}
use jaris.Assemble.Text.{parse, assemble}
use jaris.Assemble.Text.Passes.{assemble-≢-out_of_fuel}
use jaris.Assemble.Print.{
  bytecode_to_asm, program_to_asm, IsSource, IsLabel, is_name, all_are, hex2, hex4, decimal_fuel,
}
use jaris.Assemble.Print.Programs.{asm_parse_bytecode-bytecode_to_asm, assemble-program_to_asm}
use jaris.Assemble.Tokenizer.Progress.{pending}
use jaris.Assemble.Parse.{
  parse_token, parse_inst, parse_arg8, arg8, parse_name, asm_token_expect, kind_code,
  bytecode_with_sv, but_last, unquoted,
}
use jaris.Assemble.Text.{parse_fuel}
use jaris.Assemble.Tokenizer.{
  token_next_fuel, token_next_from, next_lexeme, next_word, define_macro, macro_body,
  add_macro_token, find_macro, macro_token,
}
use jaris.Assemble.Lex.{
  lex, lex_hex, lex_bin, lex_string, end_string, lex_int, atoi, lex_word, lex_other, lex_prefixed,
  lex_minus, span, number, word_token, keyword,
}
use jaris.Files.Types.{str_eq}
use jaris.Instructions.{instruction_to_string, sv_to_instruction, instruction_stat, opcode}

abbrev with_macro : List ℕ
with_macro = codes "{m RAM_AL 0x2a HLT} start: m -- ends\n m JMPR $start \"ab\" 0b00000101 db 12"

-- The macro is expanded twice, and the comment is skipped.
with_macro-parse :
    parse with_macro 0
    ≡ ok (
        bsetlabel (codes "start")
        ∷ binsthex ram_al 42
        ∷ binst hlt
        ∷ binsthex ram_al 42
        ∷ binst hlt
        ∷ binstrellabel jmpr (codes "start")
        ∷ bstring (codes "ab")
        ∷ bhex 5
        ∷ bdb 12
        ∷ [])
unfolding parse parse_fuel weight pending asm_parse_bytecode parse_token parse_inst parse_arg8 arg8
    parse_name asm_token_expect kind_code bytecode_with_sv but_last unquoted asm_token_next
    token_next_fuel token_next_from next_lexeme next_word define_macro macro_body add_macro_token
    find_macro macro_token lex lex_hex lex_bin lex_string end_string lex_int atoi lex_word lex_other
    lex_prefixed lex_minus span number word_token sv_to_instruction keyword str_eq
    instruction_to_string instruction_stat opcode
with_macro-parse = refl

-- A macro whose `}` is missing ends in the failed assertion on its table.
open_macro-parse : parse (codes "{m NOP") 0 ≡ failed
unfolding parse parse_fuel weight pending asm_parse_bytecode parse_token parse_inst parse_arg8 arg8
    parse_name asm_token_expect kind_code bytecode_with_sv but_last unquoted asm_token_next
    token_next_fuel token_next_from next_lexeme next_word define_macro macro_body add_macro_token
    find_macro macro_token lex lex_hex lex_bin lex_string end_string lex_int atoi lex_word lex_other
    lex_prefixed lex_minus span number word_token sv_to_instruction keyword str_eq
    instruction_to_string instruction_stat opcode
open_macro-parse = refl

asm_token_next-Returns_example :
    Returns
      (weight (asm_tokenizer_init with_macro 0))
      (asm_token_next (asm_tokenizer_init with_macro 0))
unfolding MacrosFit
asm_token_next-Returns_example = asm_token_next-Returns (asm_tokenizer_init with_macro 0) tt

assemble-≢-out_of_fuel_example : assemble with_macro false 0 ≢ out_of_fuel
assemble-≢-out_of_fuel_example = assemble-≢-out_of_fuel with_macro false 0

-- A program with a label, a word, a byte and a text.
abbrev name : List ℕ
name = codes "main"

name-IsLabel : IsLabel name
unfolding is_name all_are word_token sv_to_instruction keyword str_eq instruction_to_string
name-IsLabel = record { spelled = refl; not_reserved = refl; fits = refl }

abbrev program : List Bytecode
program =
    bglobal name
    ∷ bsetlabel name
    ∷ binsthex ram_al 42
    ∷ binsthex2 ram_a 4660
    ∷ binstlabel ram_a name
    ∷ binstrellabel jmpr name
    ∷ bdb 12
    ∷ bstring (codes "ab")
    ∷ binst hlt
    ∷ []

program-IsSource : All IsSource program
unfolding IsSource all_are instruction_stat opcode
program-IsSource = (
  name-IsLabel,
  (
    name-IsLabel,
    (
      (refl, omega arith, refl),
      (
        (refl, omega arith),
        (
          (inl refl, name-IsLabel),
          ((refl, name-IsLabel), (omega arith, ((refl, refl), (refl, tt)))),
        ),
      ),
    ),
  ),
)

abbrev printed : List ℕ
printed =
    codes
      "GLOBAL main\nmain:\nRAM_AL 0x2A\nRAM_A 0x1234\nRAM_A main\nJMPR $main\ndb 12\n\"ab\"\nHLT\n"

program-program_to_asm : program_to_asm program ≡ some printed
unfolding program_to_asm bytecode_to_asm hex2 hex4 decimal_fuel instruction_to_string
program-program_to_asm = refl

asm_parse_bytecode-bytecode_to_asm_example :
    asm_parse_bytecode (asm_tokenizer_init (codes "RAM_AL 0x2A\nHLT\n") 0)
    ≡ ok (binsthex ram_al 42, asm_tokenizer_init (codes "\nHLT\n") 0)
unfolding bytecode_to_asm hex2 IsSource instruction_to_string instruction_stat opcode
asm_parse_bytecode-bytecode_to_asm_example =
    asm_parse_bytecode-bytecode_to_asm (binsthex ram_al 42) (codes "RAM_AL 0x2A") (codes "HLT\n") 0
      refl (refl, omega arith, refl)

assemble-program_to_asm_example :
    assemble printed false 0 ≡ lift (compile program no_obj >>= obj_check false)
assemble-program_to_asm_example =
    assemble-program_to_asm program printed false 0 program-program_to_asm program-IsSource
