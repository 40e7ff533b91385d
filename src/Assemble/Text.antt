-- ===== src/Assemble/Text.antt =====
-- src/assemble.c `assemble`: the bytecodes of a text are compiled one after the other, and the
-- object is checked. The options that only print are left out.
mod Tests
pub mod Passes
use jaris.Base.{ℕ, zero, suc, Bool, true, false, List, [], ◌∷◌}
use jaris.Base.Outcome.{Outcome, ok, out_of_fuel, ◌>>=◌, lift}
use jaris.Files.Types.{Obj}
use jaris.Assemble.Bytecode.{Bytecode}
use jaris.Assemble.Bytecode.Bytecode.{bnone}
use jaris.Assemble.Token.{Tokenizer}
use jaris.Assemble.Tokenizer.{asm_tokenizer_init}
use jaris.Assemble.Tokenizer.Progress.{weight}
use jaris.Assemble.Parse.{asm_parse_bytecode}
use jaris.Assemble.Compile.{obj_compile_bytecode}
use jaris.Assemble.Check.{obj_check}
use jaris.Assemble.Object.{no_obj}

abbrev pub is_bnone : Bytecode → Bool
is_bnone bnone = true
is_bnone _ = false

-- The bytecodes of a text, before any of them is compiled: a view of the loop of `assemble` for the
-- proofs, which src/ does not have as code.
unfoldable pub parse_fuel : ℕ → Tokenizer → Outcome (List Bytecode)
parse_fuel zero tok = out_of_fuel
parse_fuel (suc fuel) tok = do
  (bc, tok) ← asm_parse_bytecode tok
  elim (is_bnone bc) [
    | true ↦ ok []
    | false ↦ (parse_fuel fuel tok >>= λ bytecodes. ok (bc ∷ bytecodes))
  ]

unfoldable pub parse : List ℕ → ℕ → Outcome (List Bytecode)
parse buffer allowed_flags =
    let tok = asm_tokenizer_init buffer allowed_flags in parse_fuel (suc (weight tok)) tok

-- The loop of `assemble`: up to the end of the text.
unfoldable pub assemble_fuel : ℕ → Tokenizer → Obj → Outcome Obj
assemble_fuel zero tok obj = out_of_fuel
assemble_fuel (suc fuel) tok obj = do
  (bc, tok) ← asm_parse_bytecode tok
  elim (is_bnone bc) [
    | true ↦ ok obj
    | false ↦ (lift (obj_compile_bytecode bc obj) >>= assemble_fuel fuel tok)
  ]

unfoldable pub assemble : List ℕ → Bool → ℕ → Outcome Obj
assemble buffer debug_info allowed_flags =
    let tok = asm_tokenizer_init buffer allowed_flags in
    assemble_fuel (suc (weight tok)) tok no_obj >>= λ obj. lift (obj_check debug_info obj)
