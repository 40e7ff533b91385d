-- ===== src/Assemble/Text/Passes.antt =====
-- The loop of src/assemble.c `assemble`: its rounds, and its relation to the view of a text as the
-- list of its bytecodes.
use jaris.Base.{
  ℕ, zero, suc, ◌<◌, ◌≡◌, ◌≢◌, refl, ap, ◌∙◌, arith, Bool, true, false, List, [], ◌∷◌, Option, none,
  some,
}
use jaris.Base.Outcome.{Outcome, ok, failed, out_of_fuel, ◌>>=◌, lift, >>=-≢-out_of_fuel, >>=-assoc}
use jaris.Files.Types.{Obj}
use jaris.Assemble.Bytecode.{Bytecode}
use jaris.Assemble.Bytecode.Bytecode.{bnone}
use jaris.Assemble.Token.{Tokenizer}
use jaris.Assemble.Tokenizer.{asm_tokenizer_init}
use jaris.Assemble.Tokenizer.Progress.{MacrosFit, weight}
use jaris.Assemble.Parse.{Parsed, asm_parse_bytecode}
use jaris.Assemble.Parse.Progress.{
  Parses, parses_failed, parses, end_slack, asm_parse_bytecode-Parses,
}
use jaris.Assemble.Compile.{obj_compile_bytecode, compile}
use jaris.Assemble.Check.{obj_check}
use jaris.Assemble.Object.{no_obj}
use jaris.Assemble.Text.{is_bnone, parse_fuel, parse, assemble_fuel, assemble}

lift-≢-out_of_fuel : {A : Type 0} (o : Option A) → lift o ≢ out_of_fuel
lift-≢-out_of_fuel none = λ e. cc
lift-≢-out_of_fuel (some a) = λ e. cc

-- The rest of either loop behind a bytecode.
abbrev after_bytecode :
    (A : Type 0) → Outcome A → (Bytecode → Tokenizer → Outcome A) → Bytecode × Tokenizer → Outcome A
after_bytecode A ended more (bc, tok) = elim (is_bnone bc) as (λ _. Outcome A) [
  | true ↦ ended
  | false ↦ more bc tok
]

-- What holds of a loop over the bytecodes: at its end, in an error, and behind a bytecode.
read_bytecode :
    {A : Type 0} (Q : Outcome A → Type 0) (fuel : ℕ) (tok : Tokenizer) (ended : Outcome A)
    (more : Bytecode → Tokenizer → Outcome A)
    → weight tok < suc fuel
    → Q failed
    → Q ended
    → ((bc : Bytecode) (tok' : Tokenizer) → MacrosFit tok' → weight tok' < fuel → Q (more bc tok'))
    → (o : Parsed) → Parses (weight tok) o
    → Q (o >>= after_bytecode A ended more)
unfolding end_slack
read_bytecode Q fuel tok ended more h f e k _ parses_failed = f
read_bytecode Q fuel tok ended more h f e k _ (parses bnone tok' fit less) = e
read_bytecode Q fuel tok ended more h f e k _ (parses bc tok' fit less) =
    k bc tok' fit (omega (arith, h))

parse_fuel-≢-out_of_fuel :
    (fuel : ℕ) (tok : Tokenizer)
    → MacrosFit tok
    → weight tok < fuel
    → parse_fuel fuel tok ≢ out_of_fuel
unfolding parse_fuel
parse_fuel-≢-out_of_fuel zero tok fit h = absurd (omega (arith, h))
parse_fuel-≢-out_of_fuel (suc fuel) tok fit h =
    read_bytecode (λ o. o ≢ out_of_fuel) fuel tok (ok []) _ h (λ e. cc) (λ e. cc)
      (λ bc tok' fit' less.
        >>=-≢-out_of_fuel (parse_fuel fuel tok') _ (parse_fuel-≢-out_of_fuel fuel tok' fit' less)
          (λ l e q. cc))
      (asm_parse_bytecode tok) (asm_parse_bytecode-Parses tok fit)

-- A bytecode, then the bytecodes behind it.
compile_behind :
    (bc : Bytecode) (obj : Obj) (p : Outcome (List Bytecode)) (f : Obj → Outcome Obj)
    (c : Option Obj)
    → obj_compile_bytecode bc obj ≡ c
    → p ≢ out_of_fuel
    → ((obj' : Obj) → f obj' ≡ (p >>= λ l. lift (compile l obj')))
    → (lift c >>= f) ≡ ((p >>= λ l. ok (bc ∷ l)) >>= λ l. lift (compile l obj))
unfolding compile
compile_behind bc obj (ok l) f none e h k = rw e refl
compile_behind bc obj (ok l) f (some obj') e h k = rw e (k obj')
compile_behind bc obj failed f none e h k = refl
compile_behind bc obj failed f (some obj') e h k = k obj'
compile_behind bc obj out_of_fuel f c e h k = absurd (h refl)

assemble_fuel-parse_fuel :
    (fuel : ℕ) (tok : Tokenizer) (obj : Obj)
    → MacrosFit tok
    → weight tok < fuel
    → assemble_fuel fuel tok obj ≡ (parse_fuel fuel tok >>= λ l. lift (compile l obj))
unfolding assemble_fuel parse_fuel compile end_slack
assemble_fuel-parse_fuel zero tok obj fit h = absurd (omega (arith, h))
assemble_fuel-parse_fuel (suc fuel) tok obj fit h =
    passes (asm_parse_bytecode tok)
      (λ tok' fit' less obj'. assemble_fuel-parse_fuel fuel tok' obj' fit' less)
      (asm_parse_bytecode-Parses tok fit)
  where
    Rest : Type 0
    Rest =
        (tok' : Tokenizer)
        → MacrosFit tok'
        → weight tok' < fuel
        → (obj' : Obj)
        → assemble_fuel fuel tok' obj' ≡ (parse_fuel fuel tok' >>= λ l. lift (compile l obj'))

    passes :
        (o : Parsed)
        → Rest
        → Parses (weight tok) o
        → (o
            >>= after_bytecode Obj
                (ok obj)
                (λ bc tok'. lift (obj_compile_bytecode bc obj) >>= assemble_fuel fuel tok'))
          ≡ ((o
                >>= after_bytecode
                    (List Bytecode)
                    (ok [])
                    (λ bc tok'. parse_fuel fuel tok' >>= λ l. ok (bc ∷ l)))
              >>= λ l. lift (compile l obj))
    passes _ again parses_failed = refl
    passes _ again (parses bnone tok' fit' less) = refl
    passes _ again (parses bc tok' fit' less) =
        let less' : weight tok' < fuel = omega (arith, h) in
        compile_behind bc obj (parse_fuel fuel tok') (assemble_fuel fuel tok')
          (obj_compile_bytecode bc obj) refl (parse_fuel-≢-out_of_fuel fuel tok' fit' less')
          (again tok' fit' less')

-- Assembling a text is parsing it, compiling the bytecodes in order, and checking the object.
pub assemble-parse :
    (buffer : List ℕ) (debug_info : Bool) (flags : ℕ)
    → assemble buffer debug_info flags ≡ (
        parse buffer flags >>= λ l.
        (lift (compile l no_obj) >>= λ obj. lift (obj_check debug_info obj)))
unfolding assemble parse MacrosFit
assemble-parse buffer debug_info flags =
    let tok = asm_tokenizer_init buffer flags in
    ap (λ o. o >>= λ obj. lift (obj_check debug_info obj))
      (assemble_fuel-parse_fuel (suc (weight tok)) tok no_obj tt (omega arith))
    ∙ >>=-assoc (parse_fuel (suc (weight tok)) tok) _ _

-- `assemble` ends on every text, with every option: in an object or in an error.
pub assemble-≢-out_of_fuel :
    (buffer : List ℕ) (debug_info : Bool) (flags : ℕ)
    → assemble buffer debug_info flags ≢ out_of_fuel
unfolding parse MacrosFit
assemble-≢-out_of_fuel buffer debug_info flags = rw (assemble-parse buffer debug_info flags) (
    let tok = asm_tokenizer_init buffer flags in
    >>=-≢-out_of_fuel (parse buffer flags) _
      (parse_fuel-≢-out_of_fuel (suc (weight tok)) tok tt (omega arith))
      (λ l e.
        >>=-≢-out_of_fuel (lift (compile l no_obj)) _ (lift-≢-out_of_fuel (compile l no_obj))
          (λ obj e'. lift-≢-out_of_fuel (obj_check debug_info obj))))
