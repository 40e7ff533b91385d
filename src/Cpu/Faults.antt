-- ===== src/Cpu/Faults.antt =====
-- When a clock cycle faults.
use jaris.Base.{
  ℕ, ◌≤◌, ◌≡◌, arith, refl, Bool, true, false, Option, none, some, ◌↔◌, ℤ, pos, negsuc, when,
}
use jaris.Base.{if◌then◌else◌, sym, ◌∙◌, subst}
use jaris.Microcode.{check_microcode}
use jaris.Microcode.MicrocodeFlag.{halt, keyo, aluo, spu}
use jaris.Rom.Program.{control_rom}
use jaris.Cpu.State.{Cpu}
use jaris.Cpu.Tick.{tick, execute, drive_bus, pop_key, pop_from, with_key, finish, latch, put_sc}
use jaris.Cpu.Valid.{IsValid}
use jaris.Cpu.Run.{word, tick-execute}

-- The counts of the keyboard queue at which `KEYo` moves bytes out of its bounds.
pub Exhausted : ℤ → Type 0
Exhausted (negsuc n) = Unit
Exhausted (pos n) = 1024 ≤ n

when-queue :
    (t : Bool) (f : Cpu → Cpu) (c : Cpu)
    → ((d : Cpu) → (f d).key_fifo_i ≡ d.key_fifo_i)
    → (when t f c).key_fifo_i ≡ c.key_fifo_i
when-queue true f c h = h c
when-queue false f c h = refl

drive_bus-queue : (mc : ℕ) (c : Cpu) → (drive_bus mc c).1.key_fifo_i ≡ c.key_fifo_i
unfolding drive_bus
drive_bus-queue mc c =
    when-queue (check_microcode mc spu) _ _ (λ d. refl)
    ∙ when-queue (check_microcode mc aluo) _ _ (λ d. refl)

pop_from_iff : (z : ℤ) (c : Cpu) → (pop_from z c ≡ none) ↔ Exhausted z
unfolding pop_from Exhausted
pop_from_iff (negsuc n) c = (λ _. tt, λ _. refl)
pop_from_iff (pos n) c = ground arith

after_key :
    (t : Bool) (p : ℕ × Cpu) (f : ℕ × Cpu → Cpu × Bool)
    → (elim (with_key t p) as (λ _. Option (Cpu × Bool)) [
      | none ↦ none
      | some (b, c) ↦ some (f (b, c))
    ]
        ≡ none)
      ↔ ((t ≡ true) × (pop_key p.1 ≡ none))
after_key true p f = from (pop_key p.1)
  where
    from :
        (o : Option (ℕ × Cpu))
        → (elim o as (λ _. Option (Cpu × Bool)) [ none ↦ none | some (b, c) ↦ some (f (b, c)) ]
            ≡ none)
          ↔ ((true ≡ true) × (o ≡ none))
    from none = (λ _. (refl, refl), λ _. refl)
    from (some q) = (λ e. cc, λ e. cc)
after_key false p f = (λ e. cc, λ e. cc)

execute_iff :
    (mc : ℕ) (c : Cpu) (running : Bool)
    → (execute mc c running ≡ none) ↔ ((check_microcode mc keyo ≡ true) × Exhausted c.key_fifo_i)
unfolding execute pop_key
execute_iff mc c running =
    let d = when (check_microcode mc halt) (put_sc 0) c in
    let queue =
      drive_bus-queue mc d ∙ when-queue (check_microcode mc halt) (put_sc 0) c (λ e. refl) in
    let (there, back) = after_key (check_microcode mc keyo) (drive_bus mc d) (λ (b, e).
      (finish mc b (latch mc b e), if check_microcode mc halt then false else running)) in
    let (empty, full) = pop_from_iff (drive_bus mc d).1.key_fifo_i (drive_bus mc d).1 in
    (
      λ e. let (k, o) = there e in (k, subst Exhausted queue (empty o)),
      λ (k, x). back (k, full (subst Exhausted (sym queue) x)),
    )

-- A cycle of a valid state faults in one case only: its microcode word reads the keyboard and the
-- count of the keyboard queue is negative or 1024 and more.
pub tick-none_iff :
    (cpu : Cpu) (running : Bool)
    → IsValid cpu
    → (tick control_rom cpu running ≡ none)
      ↔ ((check_microcode (word cpu) keyo ≡ true) × Exhausted cpu.key_fifo_i)
tick-none_iff cpu running h = rw (tick-execute cpu running h) (execute_iff (word cpu) cpu running)
