-- ===== src/Assemble/Tokenizer.antt =====
-- src/assemble.c `asm_token_next`. Each recursive call is behind a character that is consumed, so
-- fuel above the length of the buffer is enough; the loop over the body of a macro is bounded by the
-- size of its table.
pub mod Progress
pub mod Returns
use jaris.Base.{
  ℕ, zero, suc, ◌+◌, ◌-◌, Bool, true, false, List, [], ◌∷◌, ◌++◌, length, get_elem?, set, leb, ltb,
  Option, none, some,
}
use jaris.Base.Outcome.{Outcome, ok, failed, out_of_fuel, ◌>>=◌, ◌>>◌, require, lift}
use jaris.Instructions.Instruction.{nop}
use jaris.Files.Types.{str_eq}
use jaris.Base.{if◌then◌else◌}
use jaris.Assemble.Token.{Token, TokenKind, Macro, Tokenizer, asm_tokens_macro_max, asm_macros_max}
use jaris.Assemble.Token.TokenKind.{asmt_none, asmt_sym, asmt_macroc}
use jaris.Assemble.Lex.{
  Lexeme, at_end, blank, macro_open, word, token, invalid, lex, word_token, plain,
}

abbrev pub asm_tokenizer_init : List ℕ → ℕ → Tokenizer
asm_tokenizer_init buffer allowed_flags = record {
  buffer = buffer;
  macros = [];
  current_macro = none;
  current_macro_token = 0;
  allowed_flags = allowed_flags;
}

abbrev pub Step : Type 0
Step = Outcome (Token × Tokenizer)

abbrev pub is_none : TokenKind → Bool
is_none asmt_none = true
is_none _ = false

abbrev pub is_sym : TokenKind → Bool
is_sym asmt_sym = true
is_sym _ = false

abbrev pub is_macroc : TokenKind → Bool
is_macroc asmt_macroc = true
is_macroc _ = false

-- The first macro of that name.
unfoldable pub find_macro : List Macro → List ℕ → Option ℕ
find_macro [] image = none
find_macro (m ∷ macros) image =
    let rest = find_macro macros image in
    if str_eq m.name image then some 0 else elim rest [ none ↦ none | some i ↦ some (suc i) ]

-- One more token of the macro.
abbrev pub grow_macro : Token → Macro → Macro
grow_macro t m = record m { tokens = m.tokens ++ (t ∷ []) }

-- `macro->tokens[macro->token_count++] = t`
unfoldable pub add_macro_token : ℕ → Token → Tokenizer → Outcome Tokenizer
add_macro_token index t tok = do
  m ← lift (get_elem? tok.macros index)
  require (ltb (length m.tokens + 1) asm_tokens_macro_max)
  ok (record tok { macros = set tok.macros index (grow_macro t m) })

-- The loop that reads the body of a macro up to its `}`, given how the next token is read. `room`
-- rounds end in the failed assertion on the table of tokens.
unfoldable pub macro_body : (Tokenizer → Step) → ℕ → ℕ → Tokenizer → Outcome Tokenizer
macro_body next zero index tok = failed
macro_body next (suc room) index tok = do
  (t, tok) ← next tok
  elim (is_macroc t.kind) [
    | true ↦ ok tok
    | false ↦ (add_macro_token index t tok >>= macro_body next room index)
  ]

-- A macro's name and its body.
unfoldable pub define_macro : (Tokenizer → Step) → Tokenizer → Outcome Tokenizer
define_macro next tok = do
  (name, tok) ← next tok
  require (is_sym name.kind)
  require (ltb (length tok.macros + 1) asm_macros_max)
  macro_body next asm_tokens_macro_max (length tok.macros)
      (record tok { macros = tok.macros ++ (record { name = name.image; tokens = [] } ∷ []) })

abbrev pub put_buffer : List ℕ → Tokenizer → Tokenizer
put_buffer buffer tok = record tok { buffer = buffer }

abbrev pub enter_macro : ℕ → Tokenizer → Tokenizer
enter_macro index tok = record tok { current_macro = some index; current_macro_token = 0 }

abbrev pub leave_macro : Tokenizer → Tokenizer
leave_macro tok = record tok { current_macro = none }

-- A name: the start of a macro, or a token.
unfoldable pub next_word : (Tokenizer → Step) → List ℕ → Tokenizer → Step
next_word next image tok = elim (is_sym (word_token image).kind) [
  | false ↦ ok (word_token image, tok)
  | true ↦ elim (find_macro tok.macros image) [
    | some index ↦ next (enter_macro index tok)
    | none ↦ ok (word_token image, tok)
  ]
]

-- The token at the head of the buffer.
unfoldable pub next_lexeme : (Tokenizer → Step) → Lexeme → Tokenizer → Step
next_lexeme next at_end tok = ok (plain asmt_none [], tok)
next_lexeme next (blank rest) tok = next (put_buffer rest tok)
next_lexeme next (macro_open rest) tok = define_macro next (put_buffer rest tok) >>= next
next_lexeme next (word image rest) tok = next_word next image (put_buffer rest tok)
next_lexeme next (token t rest) tok = ok (t, put_buffer rest tok)
next_lexeme next invalid tok = failed

-- The token of the macro that is being expanded; its end goes back to the buffer.
unfoldable pub macro_token : (Tokenizer → Step) → ℕ → Tokenizer → Step
macro_token scan index tok = do
  m ← lift (get_elem? tok.macros index)
  require (leb tok.current_macro_token (length m.tokens))
  elim (get_elem? m.tokens tok.current_macro_token) [
    | none ↦ scan (leave_macro tok)
    | some t ↦ ok (t, record tok { current_macro_token = suc tok.current_macro_token })
  ]

abbrev pub scan_buffer : (Tokenizer → Step) → Tokenizer → Step
scan_buffer next tok = next_lexeme next (lex tok.buffer) tok

unfoldable pub token_next_from : (Tokenizer → Step) → Tokenizer → Step
token_next_from next tok = elim tok.current_macro [
  | none ↦ scan_buffer next tok
  | some index ↦ macro_token (scan_buffer next) index tok
]

unfoldable pub token_next_fuel : ℕ → Tokenizer → Step
token_next_fuel zero tok = out_of_fuel
token_next_fuel (suc fuel) tok = token_next_from (token_next_fuel fuel) tok

unfoldable pub asm_token_next : Tokenizer → Step
asm_token_next tok = token_next_fuel (suc (length tok.buffer)) tok
