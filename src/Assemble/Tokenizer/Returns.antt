-- ===== src/Assemble/Tokenizer/Returns.antt =====
-- src/assemble.c `asm_token_next` returns: no reader of tokens runs out of fuel.
use jaris.Base.{
  ℕ, zero, suc, ◌+◌, ◌*◌, ◌≤◌, ◌<◌, ◌≡◌, refl, arith, Bool, true, false, List, [], ◌∷◌, ◌++◌,
  length,
}
use jaris.Base.{
  Option, none, some, get_elem?, ltb, leb, All-append, All-get_elem?, get_elem?-<-length,
}
use jaris.Base.Outcome.{Outcome, ok, ◌>>=◌, ◌>>◌, require, lift}
use jaris.Assemble.Token.{Token, Macro, Tokenizer, asm_tokens_macro_max, asm_macros_max}
use jaris.Assemble.Token.TokenKind.{asmt_none}
use jaris.Assemble.Lex.{Lexeme, lex, word_token, plain}
use jaris.Assemble.Lex.Shorter.{
  Shorter, lex-Shorter, at_end_short, invalid_short, blank_short, macro_open_short, word_short,
  token_short,
}
use jaris.Assemble.Tokenizer.{
  Step, is_sym, is_macroc, find_macro, add_macro_token, macro_body, define_macro,
}
use jaris.Assemble.Tokenizer.{
  put_buffer, enter_macro, leave_macro, next_word, next_lexeme, macro_token, scan_buffer,
  token_next_from, token_next_fuel, asm_token_next,
}
use jaris.Assemble.Tokenizer.Progress.{
  HasRoom, MacrosFit, pending, weight, slack, Returns, returns_failed, returns_token, Leaves,
  leaves_failed, leaves,
}
use jaris.Assemble.Tokenizer.Progress.{
  ReturnsBelow, Returns-mono, read->>=, leaves->>=, add_macro_token-Leaves, weight-buffer, weight-≤,
  slack-≤,
}

Leaves-mono : (m k : ℕ) (o : Outcome Tokenizer) → m ≤ k → Leaves m o → Leaves k o
Leaves-mono m k _ h leaves_failed = leaves_failed
Leaves-mono m k _ h (leaves tok fit le) = leaves tok fit (omega arith)

require-Leaves : (b : Bool) (n : ℕ) (o : Outcome Tokenizer) → Leaves n o → Leaves n (require b >> o)
require-Leaves false n o h = leaves_failed
require-Leaves true n o h = h

-- A reader that returns on every buffer of fewer than `n` characters.
module _ (n : ℕ) (next : Tokenizer → Step) (below : ReturnsBelow n next) where
  -- One round of the loop, given the rounds behind it.
  round-Leaves :
      (room index : ℕ) (t : Token) (tok : Tokenizer) (b : Bool)
      → MacrosFit tok
      → ((tok' : Tokenizer)
          → MacrosFit tok'
          → weight tok' ≤ weight tok
          → Leaves (weight tok') (macro_body next room index tok'))
      → Leaves (weight tok) (elim b as (λ _. Outcome Tokenizer) [
        | true ↦ ok tok
        | false ↦ (add_macro_token index t tok >>= macro_body next room index)
      ])
  round-Leaves room index t tok true fit rest = leaves tok fit (omega arith)
  round-Leaves room index t tok false fit rest =
      leaves->>= (λ o. Leaves (weight tok) o) (weight tok) _ _ leaves_failed
        (λ tok' fit' le. Leaves-mono (weight tok') (weight tok) _ le (rest tok' fit' le))
        (add_macro_token-Leaves index t tok fit)

  macro_body-Leaves :
      (room index : ℕ) (tok : Tokenizer)
      → MacrosFit tok
      → length tok.buffer < n
      → Leaves (weight tok) (macro_body next room index tok)
  unfolding macro_body ReturnsBelow
  macro_body-Leaves zero index tok fit h = leaves_failed
  macro_body-Leaves (suc room) index tok fit h =
      read->>= (λ o. Leaves (weight tok) o) (weight tok) (next tok) _ leaves_failed
        (λ t tok' fit' less.
          Leaves-mono (weight tok') (weight tok) _ (omega (arith, slack-≤ t.kind)) (
            round-Leaves room index t tok' (is_macroc t.kind) fit' (λ tok'' fit'' le.
              macro_body-Leaves room index tok'' fit'' (
                omega (
                  arith,
                  weight-buffer tok'' (length tok.buffer)
                      (omega (arith, weight-≤ tok, slack-≤ t.kind)),
                )))))
        (below tok fit h)

  define_macro-Leaves :
      (tok : Tokenizer)
      → MacrosFit tok
      → length tok.buffer < n
      → Leaves (weight tok) (define_macro next tok)
  unfolding define_macro ReturnsBelow MacrosFit weight
  define_macro-Leaves tok fit h =
      read->>= (λ o. Leaves (weight tok) o) (weight tok) (next tok) _ leaves_failed
        (λ t tok' fit' less.
          Leaves-mono (weight tok') (weight tok) _ (omega (arith, slack-≤ t.kind)) (
            require-Leaves (is_sym t.kind) _ _ (
              require-Leaves (ltb (length tok'.macros + 1) asm_macros_max) _ _ (
                macro_body-Leaves asm_tokens_macro_max (length tok'.macros)
                  (record tok' {
                    macros = tok'.macros ++ (record { name = t.image; tokens = [] } ∷ []);
                  })
                  (All-append HasRoom tok'.macros _ fit' (omega arith, tt))
                  (omega (
                    arith,
                    weight-buffer tok' (length tok.buffer)
                        (omega (arith, weight-≤ tok, slack-≤ t.kind)),
                  ))))))
        (below tok fit h)

  -- A reader behind a state of no more weight.
  below-Returns :
      (m : ℕ) (tok : Tokenizer)
      → MacrosFit tok
      → length tok.buffer < n
      → weight tok ≤ m
      → Returns m (next tok)
  unfolding ReturnsBelow
  below-Returns m tok fit h le = Returns-mono (weight tok) m (next tok) le (below tok fit h)

  next_word-Returns :
      (m : ℕ) (image : List ℕ) (tok : Tokenizer)
      → MacrosFit tok
      → length tok.buffer < n
      → 33 * length tok.buffer + 32 < m
      → Returns m (next_word next image tok)
  unfolding next_word MacrosFit
  next_word-Returns m image tok fit h less = kinds (is_sym (word_token image).kind)
    where
      found :
          (o : Option ℕ)
          → Returns m (elim o as (λ _. Step) [
            | some index ↦ next (enter_macro index tok)
            | none ↦ ok (word_token image, tok)
          ])
      found none = returns_token (word_token image) tok fit (omega (arith, weight-≤ tok))
      found (some index) =
          below-Returns m (enter_macro index tok) fit h
            (omega (arith, weight-≤ (enter_macro index tok)))

      kinds :
          (b : Bool)
          → Returns m (elim b as (λ _. Step) [
            | false ↦ ok (word_token image, tok)
            | true ↦ elim (find_macro tok.macros image) as (λ _. Step) [
              | some index ↦ next (enter_macro index tok)
              | none ↦ ok (word_token image, tok)
            ]
          ])
      kinds false = returns_token (word_token image) tok fit (omega (arith, weight-≤ tok))
      kinds true = found (find_macro tok.macros image)

  next_lexeme-Returns :
      (tok : Tokenizer)
      → MacrosFit tok
      → length tok.buffer ≤ n
      → (x : Lexeme) → Shorter (length tok.buffer) x
      → Returns (weight tok) (next_lexeme next x tok)
  unfolding next_lexeme weight MacrosFit slack
  next_lexeme-Returns tok fit h _ at_end_short =
      returns_token (plain asmt_none []) tok fit (omega arith)
  next_lexeme-Returns tok fit h _ invalid_short = returns_failed
  next_lexeme-Returns tok fit h _ (blank_short rest less) =
      below-Returns (weight tok) (put_buffer rest tok) fit (omega arith) (omega arith)
  next_lexeme-Returns tok fit h _ (macro_open_short rest less) =
      leaves->>= (λ o. Returns (weight tok) o) _ _ _ returns_failed
        (λ tok' fit' le.
          below-Returns (weight tok) tok' fit'
            (omega (
              arith,
              weight-buffer tok' (length rest) (omega (arith, weight-≤ (put_buffer rest tok))),
            ))
            (omega arith))
        (define_macro-Leaves (put_buffer rest tok) fit (omega arith))
  next_lexeme-Returns tok fit h _ (word_short image rest less) =
      next_word-Returns (weight tok) image (put_buffer rest tok) fit (omega arith) (omega arith)
  next_lexeme-Returns tok fit h _ (token_short t rest less) =
      returns_token t (put_buffer rest tok) fit (omega arith)

  scan_buffer-Returns :
      (tok : Tokenizer)
      → MacrosFit tok
      → length tok.buffer ≤ n
      → Returns (weight tok) (scan_buffer next tok)
  scan_buffer-Returns tok fit h =
      next_lexeme-Returns tok fit h (lex tok.buffer) (lex-Shorter tok.buffer)

  macro_token-Returns :
      (index : ℕ) (tok : Tokenizer)
      → MacrosFit tok
      → tok.current_macro ≡ some index
      → length tok.buffer ≤ n
      → Returns (weight tok) (macro_token (scan_buffer next) index tok)
  unfolding macro_token weight pending MacrosFit
  macro_token-Returns index tok fit cur h = found (get_elem? tok.macros index) refl
    where
      given :
          (m : Macro) (o : Option Token)
          → get_elem? m.tokens tok.current_macro_token ≡ o
          → HasRoom m
          → Returns (weight tok) (elim o as (λ _. Step) [
            | none ↦ scan_buffer next (leave_macro tok)
            | some t ↦ ok (t, record tok { current_macro_token = suc tok.current_macro_token })
          ])
      given m none e room =
          Returns-mono (weight (leave_macro tok)) (weight tok) _ (omega arith)
            (scan_buffer-Returns (leave_macro tok) fit h)
      given m (some t) e room =
          returns_token t _ fit
            (rw cur (omega (arith, get_elem?-<-length m.tokens tok.current_macro_token t e)))

      fits :
          (m : Macro) (b : Bool)
          → HasRoom m
          → Returns (weight tok) (
              require b >> elim (get_elem? m.tokens tok.current_macro_token) as (λ _. Step) [
                | none ↦ scan_buffer next (leave_macro tok)
                | some t ↦ ok (t, record tok { current_macro_token = suc tok.current_macro_token })
              ])
      fits m false room = returns_failed
      fits m true room = given m _ refl room

      found :
          (o : Option Macro)
          → get_elem? tok.macros index ≡ o
          → Returns (weight tok) (
              lift o >>= λ m.
              require (leb tok.current_macro_token (length m.tokens))
              >> elim (get_elem? m.tokens tok.current_macro_token) as (λ _. Step) [
                | none ↦ scan_buffer next (leave_macro tok)
                | some t ↦ ok (t, record tok { current_macro_token = suc tok.current_macro_token })
              ])
      found none e = returns_failed
      found (some m) e = fits m _ (All-get_elem? HasRoom tok.macros index m fit e)

  token_next_from-Returns :
      (tok : Tokenizer)
      → MacrosFit tok
      → length tok.buffer ≤ n
      → Returns (weight tok) (token_next_from next tok)
  unfolding token_next_from
  token_next_from-Returns tok fit h = entered tok.current_macro refl
    where
      entered :
          (o : Option ℕ)
          → tok.current_macro ≡ o
          → Returns (weight tok) (elim o as (λ _. Step) [
            | none ↦ scan_buffer next tok
            | some index ↦ macro_token (scan_buffer next) index tok
          ])
      entered none e = scan_buffer-Returns tok fit h
      entered (some index) e = macro_token-Returns index tok fit e h

token_next_fuel-ReturnsBelow : (fuel : ℕ) → ReturnsBelow fuel (token_next_fuel fuel)
unfolding token_next_fuel ReturnsBelow
token_next_fuel-ReturnsBelow zero tok fit h = absurd (omega (arith, h))
token_next_fuel-ReturnsBelow (suc fuel) tok fit h =
    token_next_from-Returns fuel (token_next_fuel fuel) (token_next_fuel-ReturnsBelow fuel) tok fit
      (omega arith)

-- `asm_token_next` on a tokenizer whose macros fit their tables ends the program or gives a token
-- and a tokenizer of less weight, of the same weight at most at the end of the buffer.
pub asm_token_next-Returns :
    (tok : Tokenizer) → MacrosFit tok → Returns (weight tok) (asm_token_next tok)
unfolding asm_token_next ReturnsBelow
asm_token_next-Returns tok fit =
    token_next_fuel-ReturnsBelow (suc (length tok.buffer)) tok fit (omega arith)
