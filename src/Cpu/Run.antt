-- ===== src/Cpu/Run.antt =====
-- Clock cycles one after another, with each control ROM entry in place of the array.
use Prim.Native.Nat.add
use jaris.Base.{ℕ, zero, suc, ◌+◌, ◌%◌, ◌≡◌, arith, refl, Bool, Option, none, some}
use jaris.Base.{sym, subst, ap, ◌∙◌, low_bits}
use jaris.Microcode.{micro}
use jaris.Rom.Calls.{Rom, rom_index, fetch_0}
use jaris.Rom.Program.{control_calls, control_rom}
use jaris.Rom.Lookup.{entry, fetch_entry, control_rom-entry, rom_index_lem}
use jaris.Cpu.State.{Cpu}
use jaris.Cpu.Tick.{tick, execute}
use jaris.Cpu.Valid.{IsValid}
use jaris.Cpu.Keeps.{IsTicked, execute-IsTicked}

-- The microcode word of the state's opcode, step and flags.
unfoldable pub word : Cpu → ℕ
word cpu = entry control_calls (low_bits cpu.ir 6) cpu.sc cpu.fr (fetch_entry cpu.sc)

fetch-word : (j f : ℕ) → entry control_calls j 0 f (fetch_entry 0) ≡ fetch_0
unfolding entry control_calls micro
fetch-word j f = refl

asserted : (ir : ℕ) → control_rom (low_bits ir 6) ≡ fetch_0
asserted ir =
    ap control_rom (omega (arith, rom_index_lem (ir % 64) 0 0 (omega arith) (omega arith)))
    ∙ (control_rom-entry (ir % 64) 0 0 (omega arith) (omega arith) (omega arith)
        ∙ fetch-word (ir % 64) 0)

-- The assertion at the head of `tick` never fails, and the cycle runs under the word of the entry.
pub tick-execute :
    (cpu : Cpu) (running : Bool)
    → IsValid cpu
    → tick control_rom cpu running ≡ execute (word cpu) cpu running
unfolding tick word rom_index micro
tick-execute cpu running h = rw asserted (
    rw
      (control_rom-entry (low_bits cpu.ir 6) cpu.sc cpu.fr (omega arith) (omega arith)
        (omega arith))
      refl)

-- `n` calls of `tick`.
unfoldable pub run : Rom → ℕ → Cpu → Bool → Option (Cpu × Bool)
run rom zero cpu running = some (cpu, running)
run rom (suc n) cpu running = elim (tick rom cpu running) [
  | none ↦ none
  | some (cpu', running') ↦ run rom n cpu' running'
]

-- The same cycles, each under the word of its entry.
unfoldable pub steps : ℕ → Cpu → Bool → Option (Cpu × Bool)
steps zero cpu running = some (cpu, running)
steps (suc n) cpu running = elim (execute (word cpu) cpu running) [
  | none ↦ none
  | some (cpu', running') ↦ steps n cpu' running'
]

pub run-steps :
    (n : ℕ) (cpu : Cpu) (running : Bool)
    → IsValid cpu
    → run control_rom n cpu running ≡ steps n cpu running
unfolding run steps
run-steps zero cpu running h = refl
run-steps (suc n) cpu running h =
    rw (tick-execute cpu running h, run)
      (after (execute (word cpu) cpu running) (execute-IsTicked (word cpu) cpu running h)
        (λ c r k. run-steps n c r k))
  where
    after :
        (o : Option (Cpu × Bool))
        → IsTicked o
        → ((c : Cpu) (r : Bool) → IsValid c → run control_rom n c r ≡ steps n c r)
        → elim o as (λ _. Option (Cpu × Bool)) [ none ↦ none | some (c, r) ↦ run control_rom n c r ]
          ≡ elim o as (λ _. Option (Cpu × Bool)) [ none ↦ none | some (c, r) ↦ steps n c r ]
    after none k ih = refl
    after (some (c, r)) k ih = ih c r k

-- Running `m` cycles and then `n`.
pub steps-add :
    (m n : ℕ) (c c' : Cpu) (r r' : Bool)
    → steps m c r ≡ some (c', r')
    → steps (m + n) c r ≡ steps n c' r'
unfolding steps
steps-add zero n c c' r r' e = ground (arith, add.zero n)
steps-add (suc m) n c c' r r' e =
    rw add.suc (after (execute (word c) c r) (λ d q k. steps-add m n d c' q r' k) e)
  where
    after :
        (o : Option (Cpu × Bool))
        → ((d : Cpu) (q : Bool) → steps m d q ≡ some (c', r') → steps (m + n) d q ≡ steps n c' r')
        → elim o as (λ _. Option (Cpu × Bool)) [ none ↦ none | some (d, q) ↦ steps m d q ]
          ≡ some (c', r')
        → elim o as (λ _. Option (Cpu × Bool)) [ none ↦ none | some (d, q) ↦ steps (m + n) d q ]
          ≡ steps n c' r'
    after none k e = cc
    after (some (d, q)) k e = k d q e

-- A clock cycle keeps the registers and the memories within their widths: unless it faults, a tick
-- of a valid state ends in a valid state.
pub tick-IsTicked :
    (cpu : Cpu) (running : Bool) → IsValid cpu → IsTicked (tick control_rom cpu running)
tick-IsTicked cpu running h =
    rw (tick-execute cpu running h) (execute-IsTicked (word cpu) cpu running h)

pub run-IsTicked :
    (n : ℕ) (cpu : Cpu) (running : Bool) → IsValid cpu → IsTicked (run control_rom n cpu running)
unfolding run
run-IsTicked zero cpu running h = h
run-IsTicked (suc n) cpu running h =
    after (tick control_rom cpu running) (tick-IsTicked cpu running h)
      (λ c r k. run-IsTicked n c r k)
  where
    after :
        (o : Option (Cpu × Bool))
        → IsTicked o
        → ((c : Cpu) (r : Bool) → IsValid c → IsTicked (run control_rom n c r))
        → IsTicked (elim o as (λ _. Option (Cpu × Bool)) [
          | none ↦ none
          | some (c, r) ↦ run control_rom n c r
        ])
    after none k ih = tt
    after (some (c, r)) k ih = ih c r k

pub run-add :
    (m n : ℕ) (c c' : Cpu) (r r' : Bool)
    → IsValid c
    → run control_rom m c r ≡ some (c', r')
    → run control_rom (m + n) c r ≡ run control_rom n c' r'
run-add m n c c' r r' h e =
    run-steps (m + n) c r h
    ∙ (steps-add m n c c' r r' (sym (run-steps m c r h) ∙ e)
        ∙ sym (run-steps n c' r' (subst IsTicked e (run-IsTicked m c r h))))
