-- ===== src/Isa/Stack.antt =====
-- What programs rely on, on the simulated CPU itself: the stack, the subroutine calls and the carry
-- of a subtraction.
use jaris.Base.{ℕ, ◌/◌, ◌≡◌, ◌≢◌, arith, refl, sym, ap, ◌∙◌, subst, some}
use jaris.Base.{if◌then◌else◌, ◌==◌, leb}
use jaris.Instructions.{Instruction, opcode}
use jaris.Instructions.Instruction.{pusha, popa, call, ret, sub, hlt}
use jaris.Cpu.State.{Cpu}
use jaris.Cpu.Valid.{IsValid}
use jaris.Isa.State.{Machine, machine, plus, word_at, with_word}
use jaris.Isa.Spec.{isa, isa_plain}
use jaris.Isa.Laws.{popa-pusha, ret-call, sub-carry}
use jaris.Isa.Program.{Reaches, step_Reaches, Reaches-trans, not_hlt}

-- IP moves past the opcode.
abbrev pub advance : Machine → Machine
advance m = record m { ip = plus m.ip 1 }

two_steps :
    (i j : Instruction) (c : Cpu) (m m' : Machine)
    → IsValid c
    → c.sc ≡ 0
    → (i ≢ hlt) × (j ≢ hlt)
    → c.ram c.ip ≡ opcode i
    → isa i (advance (machine c)) ≡ some m
    → m.ram m.ip ≡ opcode j
    → isa j (advance m) ≡ some m'
    → Reaches c 32 m'
two_steps i j c m m' h start (ni, nj) code done code' done' =
    let first = step_Reaches i c m h start code ni done in
    let d = first.end in
    let back = sym first.sees in
    let code'' : d.ram d.ip ≡ opcode j =
      subst (λ (n : Machine). n.ram n.ip ≡ opcode j) back code' in
    let done'' : isa j (advance (machine d)) ≡ some m' =
      subst (λ n. isa j (advance n) ≡ some m') back done' in
    let second = step_Reaches j d m' first.valid first.at_fetch code'' nj done'' in
    Reaches-trans c 16 16 m m' h first second

not_halting : (pusha ≢ hlt) × (popa ≢ hlt) × (call ≢ hlt) × (ret ≢ hlt) × (sub ≢ hlt)
unfolding opcode
not_halting =
    (not_hlt pusha refl, not_hlt popa refl, not_hlt call refl, not_hlt ret refl, not_hlt sub refl)

-- `PUSHA` and then `POPA`, as long as the push does not overwrite the second instruction, take at
-- most 32 cycles and give back A and SP, wherever SP points, odd addresses and the ends of the RAM
-- included.
pub stack_round_trip :
    (c : Cpu)
    → IsValid c
    → c.sc ≡ 0
    → c.ram c.ip ≡ opcode pusha
    → with_word c.ram c.sp c.a (plus c.ip 1) ≡ opcode popa
    → (m : Machine) × Reaches c 32 m
      × (m.a ≡ c.a)
      × (m.b ≡ c.b)
      × (m.sp ≡ c.sp)
      × (m.ip ≡ plus (plus c.ip 1) 1)
unfolding isa isa_plain
stack_round_trip c h start push pop =
    let m = isa_plain pusha (advance (machine c)) in
    let m' = isa_plain popa (advance m) in
    let law = popa-pusha (machine c) h.a_lt h.sp_lt in
    (
      m',
      two_steps pusha popa c m m' h start (not_halting.0, not_halting.1) push refl pop refl,
      law.0,
      refl,
      law.1,
      refl,
    )

-- `CALL` to an address that holds `RET`, as long as the push overwrites neither the target's word
-- nor the `RET`, takes at most 32 cycles and comes back to the instruction behind the call's
-- operand, with SP where it was.
pub call_round_trip :
    (c : Cpu) (target : ℕ)
    → IsValid c
    → c.sc ≡ 0
    → c.ram c.ip ≡ opcode call
    → word_at (with_word c.ram c.sp (plus c.ip 1)) (plus c.ip 1) ≡ target
    → with_word c.ram c.sp (plus c.ip 1) target ≡ opcode ret
    → (m : Machine) × Reaches c 32 m
      × (m.ip ≡ plus (plus c.ip 1) 2)
      × (m.sp ≡ c.sp)
      × (m.a ≡ c.a)
      × (m.b ≡ c.b)
unfolding isa isa_plain
call_round_trip c target h start code operand code' =
    let m = isa_plain call (advance (machine c)) in
    let m' = isa_plain ret (advance m) in
    let law = ret-call (advance (machine c)) (omega arith) h.sp_lt in
    (
      m',
      two_steps call ret c m m' h start (not_halting.2, not_halting.3) code refl
          (ap (with_word c.ram c.sp (plus c.ip 1)) operand ∙ code') refl,
      law.0,
      law.1,
      refl,
      refl,
    )

-- `SUB` computes B - A modulo 2^16 in at most 16 cycles, and sets the carry exactly when A is not
-- zero and no more than B: for A = 0 the carry is lost.
pub sub_run :
    (c : Cpu)
    → IsValid c
    → c.sc ≡ 0
    → c.ram c.ip ≡ opcode sub
    → (m : Machine) × Reaches c 16 m
      × (plus m.a c.a ≡ c.b)
      × (m.b ≡ c.b)
      × (m.flags / 4 ≡ (if (c.a == 0) then 0 else if leb c.a c.b then 1 else 0))
unfolding isa isa_plain
sub_run c h start code =
    let m = isa_plain sub (advance (machine c)) in
    (
      m,
      step_Reaches sub c m h start code not_halting.4 refl,
      omega (arith, h.a_lt, h.b_lt),
      refl,
      sub-carry (machine c) h.a_lt h.b_lt,
    )
