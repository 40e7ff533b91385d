-- ===== src/Assemble/Token.antt =====
-- src/assemble.h: the tokens of the assembler, its macros and the state of its tokenizer. The
-- locations, which only the messages use, are left out; a text is the list of its characters.
use jaris.Base.{ℕ, List, Option}
use jaris.Instructions.{Instruction}

pub data TokenKind : Type 0 where
  asmt_none asmt_sym asmt_inst asmt_hex asmt_hex2 asmt_macroo asmt_macroc asmt_colon : TokenKind
  asmt_rel asmt_global asmt_extern asmt_string asmt_align asmt_db asmt_int asmt_bin : TokenKind

pub record Token : Type 0 where
  pub kind : TokenKind
  pub image : List ℕ
  pub asnum : ℕ
  pub asinst : Instruction

pub record Macro : Type 0 where
  pub name : List ℕ
  pub tokens : List Token

-- A `current_macro` of -1 is `none`; the buffer is what is left of it.
pub record Tokenizer : Type 0 where
  pub buffer : List ℕ
  pub macros : List Macro
  pub current_macro : Option ℕ
  pub current_macro_token : ℕ
  pub allowed_flags : ℕ

abbrev pub asm_tokens_macro_max : ℕ
asm_tokens_macro_max = 32

abbrev pub asm_macros_max : ℕ
asm_macros_max = 32
