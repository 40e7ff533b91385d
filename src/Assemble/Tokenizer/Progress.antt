-- ===== src/Assemble/Tokenizer/Progress.antt =====
-- How far a call of src/assemble.c `asm_token_next` takes the tokenizer: each character of the
-- buffer stands for itself and for a whole macro, so a token of either kind is progress.
use jaris.Base.{ℕ, ◌+◌, ◌-◌, ◌*◌, ◌≤◌, ◌<◌, ◌≡◌, refl, arith, Bool, true, false, [], ◌∷◌, length}
use jaris.Base.{Option, none, some, get_elem?, set, ltb, All, set-All, length-append}
use jaris.Base.Outcome.{Outcome, ok, failed, ◌>>=◌, ◌>>◌, require, lift}
use jaris.Assemble.Token.{Token, TokenKind, Macro, Tokenizer, asm_tokens_macro_max}
use jaris.Assemble.Token.TokenKind.{asmt_none}
use jaris.Assemble.Tokenizer.{Step, grow_macro, add_macro_token}

-- A table of tokens that is not full.
abbrev pub HasRoom : Macro → Type 0
HasRoom m = length m.tokens < 32

unfoldable pub MacrosFit : Tokenizer → Type 0
MacrosFit tok = All HasRoom tok.macros

-- The tokens that the current macro may still give.
unfoldable pub pending : Option ℕ → ℕ → ℕ
pending none index = 0
pending (some m) index = 32 - index

unfoldable pub weight : Tokenizer → ℕ
weight tok = 33 * length tok.buffer + pending tok.current_macro tok.current_macro_token

-- The end of the buffer is no progress.
unfoldable pub slack : TokenKind → ℕ
slack asmt_none = 1
slack _ = 0

pub data Returns (n : ℕ) : Step → Type 0 where
  returns_failed : Returns n failed
  returns_token :
      (t : Token) (tok : Tokenizer)
      → MacrosFit tok
      → weight tok < n + slack t.kind
      → Returns n (ok (t, tok))

pub data Leaves (n : ℕ) : Outcome Tokenizer → Type 0 where
  leaves_failed : Leaves n failed
  leaves : (tok : Tokenizer) → MacrosFit tok → weight tok ≤ n → Leaves n (ok tok)

-- A reader of tokens that returns on every buffer of fewer than `n` characters.
unfoldable pub ReturnsBelow : ℕ → (Tokenizer → Step) → Type 0
ReturnsBelow n next =
    (tok : Tokenizer) → MacrosFit tok → length tok.buffer < n → Returns (weight tok) (next tok)

pub slack-≤ : (k : TokenKind) → slack k ≤ 1
unfolding slack
slack-≤ asmt_none = omega arith
slack-≤ _ = omega arith

pending-≤ : (m : Option ℕ) (i : ℕ) → pending m i ≤ 32
unfolding pending
pending-≤ none i = omega arith
pending-≤ (some m) i = omega arith

pub weight-buffer : (tok : Tokenizer) (n : ℕ) → weight tok ≤ 33 * n + 32 → length tok.buffer ≤ n
unfolding weight
weight-buffer tok n h = omega arith

pub weight-≤ : (tok : Tokenizer) → weight tok ≤ 33 * length tok.buffer + 32
unfolding weight
weight-≤ tok = omega (arith, pending-≤ tok.current_macro tok.current_macro_token)

pub Returns-mono : (n m : ℕ) (o : Step) → n ≤ m → Returns n o → Returns m o
Returns-mono n m _ h returns_failed = returns_failed
Returns-mono n m _ h (returns_token t tok fit less) = returns_token t tok fit (omega arith)

-- After a token that is read, the buffer is as short as before.
pub returned-buffer :
    (tok tok' : Tokenizer) (t : Token)
    → weight tok' < weight tok + slack t.kind
    → length tok'.buffer ≤ length tok.buffer
returned-buffer tok tok' t h =
    weight-buffer tok' (length tok.buffer) (omega (arith, weight-≤ tok, slack-≤ t.kind))

-- What holds behind a token that is read.
pub read->>= :
    {B : Type 0} (Q : Outcome B → Type 0) (n : ℕ) (o : Step) (f : Token × Tokenizer → Outcome B)
    → Q failed
    → ((t : Token) (tok : Tokenizer)
        → MacrosFit tok
        → weight tok < n + slack t.kind
        → Q (f (t, tok)))
    → Returns n o
    → Q (o >>= f)
read->>= Q n _ f q h returns_failed = q
read->>= Q n _ f q h (returns_token t tok fit less) = h t tok fit less

pub leaves->>= :
    {B : Type 0} (Q : Outcome B → Type 0) (n : ℕ) (o : Outcome Tokenizer)
    (f : Tokenizer → Outcome B)
    → Q failed
    → ((tok : Tokenizer) → MacrosFit tok → weight tok ≤ n → Q (f tok))
    → Leaves n o
    → Q (o >>= f)
leaves->>= Q n _ f q h leaves_failed = q
leaves->>= Q n _ f q h (leaves tok fit le) = h tok fit le

grow_macro-HasRoom :
    (t : Token) (m : Macro) → ltb (length m.tokens + 1) 32 ≡ true → HasRoom (grow_macro t m)
grow_macro-HasRoom t m h = ground (arith, length-append m.tokens (t ∷ []))

pub add_macro_token-Leaves :
    (index : ℕ) (t : Token) (tok : Tokenizer)
    → MacrosFit tok
    → Leaves (weight tok) (add_macro_token index t tok)
unfolding add_macro_token MacrosFit weight
add_macro_token-Leaves index t tok fit = found (get_elem? tok.macros index)
  where
    grown :
        (m : Macro) (b : Bool)
        → ltb (length m.tokens + 1) 32 ≡ b
        → Leaves
            (weight tok)
            (require b >> ok (record tok { macros = set tok.macros index (grow_macro t m) }))
    grown m true e =
        leaves _ (set-All HasRoom tok.macros index _ fit (grow_macro-HasRoom t m e)) (omega arith)
    grown m false e = leaves_failed

    found :
        (o : Option Macro)
        → Leaves (weight tok) (
            lift o >>= λ m.
            require (ltb (length m.tokens + 1) asm_tokens_macro_max)
            >> ok (record tok { macros = set tok.macros index (grow_macro t m) }))
    found none = leaves_failed
    found (some m) = grown m (ltb (length m.tokens + 1) 32) refl
