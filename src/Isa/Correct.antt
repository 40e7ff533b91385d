-- ===== src/Isa/Correct.antt =====
-- The microcode implements the instruction set, and how many cycles each instruction takes.
use jaris.Base.{ℕ, ◌+◌, ◌≡◌, ◌≢◌, ◌≤◌, ◌<◌, ◌^◌, refl, arith, ◌∙◌, ap, Bool, false}
use jaris.Base.{none, some, ℤ, pos, negsuc, low_bits}
use jaris.Instructions.{Instruction, opcode}
use jaris.Instructions.Instruction.{
  nop, inca, deca, incb, ram_al, ram_bl, ram_a, ram_b, incsp, decsp, pusha, popa,
}
use jaris.Instructions.Instruction.{
  peeka, peekar, pushar, pushb, popb, peekb, sum, sub, shr, shl, and, cmpa,
}
use jaris.Instructions.Instruction.{
  cmpb, jmp, jmpr, jmprz, jmprn, jmprc, jmprnz, jmprnn, jmprnc, jmpa, jmpar, a_b,
}
use jaris.Instructions.Instruction.{
  b_a, b_ah, al_rb, a_rb, rb_al, rb_a, a_sp, sp_a, a_sec, sec_a, ram_ndx, incndx,
}
use jaris.Instructions.Instruction.{
  ndx_a, a_ndx, mem_a, mem_ah, a_mem, call, callr, ret, key_a, drw, ram_drw, hlt,
}
use jaris.Microcode.{micro}
use jaris.Rom.Program.{control_rom}
use jaris.Cpu.State.{Cpu}
use jaris.Cpu.Tick.{pop_key, pop_from}
use jaris.Cpu.Valid.{IsValid, AllBytes}
use jaris.Cpu.Run.{run, steps, run-steps, steps-add}
use jaris.Isa.State.{Machine, machine, plus}
use jaris.Isa.Spec.{isa}
use jaris.Isa.Run.{Seen, microcode, fetched, observe}
use jaris.Isa.Refine.Arith
use jaris.Isa.Refine.Stack
use jaris.Isa.Refine.Moves
use jaris.Isa.Refine.Devices
use jaris.Isa.Refine.Branches
use jaris.Isa.Refine.Branches.{branch_cycles, branch_cycles-le}

-- The clock cycles from the end of the fetch to the last cycle of the instruction.
unfoldable pub cycles : Instruction → Cpu → ℕ
cycles nop c = 1
cycles inca c = 4
cycles deca c = 4
cycles incb c = 4
cycles ram_al c = 3
cycles ram_bl c = 3
cycles ram_a c = 4
cycles ram_b c = 4
cycles incsp c = 2
cycles decsp c = 2
cycles pusha c = 3
cycles popa c = 4
cycles peeka c = 4
cycles peekar c = 6
cycles pushar c = 6
cycles pushb c = 3
cycles popb c = 4
cycles peekb c = 4
cycles sum c = 4
cycles sub c = 4
cycles shr c = 3
cycles shl c = 4
cycles and c = 4
cycles cmpa c = 4
cycles cmpb c = 4
cycles jmp c = 3
cycles jmpr c = 4
cycles jmprz c = branch_cycles jmprz c
cycles jmprn c = branch_cycles jmprn c
cycles jmprc c = branch_cycles jmprc c
cycles jmprnz c = branch_cycles jmprnz c
cycles jmprnn c = branch_cycles jmprnn c
cycles jmprnc c = branch_cycles jmprnc c
cycles jmpa c = 2
cycles jmpar c = 4
cycles a_b c = 2
cycles b_a c = 2
cycles b_ah c = 2
cycles al_rb c = 3
cycles a_rb c = 3
cycles rb_al c = 3
cycles rb_a c = 3
cycles a_sp c = 2
cycles sp_a c = 2
cycles a_sec c = 2
cycles sec_a c = 2
cycles ram_ndx c = 3
cycles incndx c = 4
cycles ndx_a c = 2
cycles a_ndx c = 2
cycles mem_a c = 2
cycles mem_ah c = 2
cycles a_mem c = 2
cycles call c = 5
cycles callr c = 6
cycles ret c = 6
cycles key_a c = 2
cycles drw c = 3
cycles ram_drw c = 4
cycles hlt c = 1

-- What the instruction set says is seen at the end: the machine at step 0, still running or not as
-- before, or the fault of the keyboard queue.
unfoldable pub expected : Instruction → Machine → Bool → Seen
unfolding isa
expected i m running = elim (isa i m) [ none ↦ none | some m' ↦ some (m', 0, running) ]

key_a_from :
    (z : ℤ) (c : Cpu) (r : Bool)
    → observe (steps 2 (fetched key_a (record c { key_fifo_i = z })) r)
      ≡ expected key_a (machine (record c { key_fifo_i = z })) r
unfolding microcode expected pop_key pop_from
key_a_from (negsuc n) c r = refl
key_a_from (pos n) c r = ground arith

pub implements :
    (i : Instruction) (c : Cpu) (r : Bool)
    → IsValid c
    → i ≢ hlt
    → observe (steps (cycles i c) (fetched i c) r) ≡ expected i (machine c) r
unfolding cycles expected
implements nop c r h ne = Arith.nop_lem c h r
implements inca c r h ne = Arith.inca_lem c h r
implements deca c r h ne = Arith.deca_lem c h r
implements incb c r h ne = Arith.incb_lem c h r
implements ram_al c r h ne = Moves.ram_al_lem c h r
implements ram_bl c r h ne = Moves.ram_bl_lem c h r
implements ram_a c r h ne = Moves.ram_a_lem c h r
implements ram_b c r h ne = Moves.ram_b_lem c h r
implements incsp c r h ne = Stack.incsp_lem c h r
implements decsp c r h ne = Stack.decsp_lem c h r
implements pusha c r h ne = Stack.pusha_lem c h r
implements popa c r h ne = Stack.popa_lem c h r
implements peeka c r h ne = Stack.peeka_lem c h r
implements peekar c r h ne = Stack.peekar_lem c h r
implements pushar c r h ne = Stack.pushar_lem c h r
implements pushb c r h ne = Stack.pushb_lem c h r
implements popb c r h ne = Stack.popb_lem c h r
implements peekb c r h ne = Stack.peekb_lem c h r
implements sum c r h ne = Arith.sum_lem c h r
implements sub c r h ne = Arith.sub_lem c h r
implements shr c r h ne = Arith.shr_lem c h r
implements shl c r h ne = Arith.shl_lem c h r
implements and c r h ne = Arith.and_lem c h r
implements cmpa c r h ne = Arith.cmpa_lem c h r
implements cmpb c r h ne = Arith.cmpb_lem c h r
implements jmp c r h ne = Moves.jmp_lem c h r
implements jmpr c r h ne = Moves.jmpr_lem c h r
implements jmprz c r h ne = Branches.jmprz_lem c h r
implements jmprn c r h ne = Branches.jmprn_lem c h r
implements jmprc c r h ne = Branches.jmprc_lem c h r
implements jmprnz c r h ne = Branches.jmprnz_lem c h r
implements jmprnn c r h ne = Branches.jmprnn_lem c h r
implements jmprnc c r h ne = Branches.jmprnc_lem c h r
implements jmpa c r h ne = Moves.jmpa_lem c h r
implements jmpar c r h ne = Moves.jmpar_lem c h r
implements a_b c r h ne = Moves.a_b_lem c h r
implements b_a c r h ne = Moves.b_a_lem c h r
implements b_ah c r h ne = Moves.b_ah_lem c h r
implements al_rb c r h ne = Moves.al_rb_lem c h r
implements a_rb c r h ne = Moves.a_rb_lem c h r
implements rb_al c r h ne = Moves.rb_al_lem c h r
implements rb_a c r h ne = Moves.rb_a_lem c h r
implements a_sp c r h ne = Moves.a_sp_lem c h r
implements sp_a c r h ne = Moves.sp_a_lem c h r
implements a_sec c r h ne = Devices.a_sec_lem c h r
implements sec_a c r h ne = Devices.sec_a_lem c h r
implements ram_ndx c r h ne = Devices.ram_ndx_lem c h r
implements incndx c r h ne = Devices.incndx_lem c h r
implements ndx_a c r h ne = Devices.ndx_a_lem c h r
implements a_ndx c r h ne = Devices.a_ndx_lem c h r
implements mem_a c r h ne = Devices.mem_a_lem c h r
implements mem_ah c r h ne = Devices.mem_ah_lem c h r
implements a_mem c r h ne = Devices.a_mem_lem c h r
implements call c r h ne = Stack.call_lem c h r
implements callr c r h ne = Stack.callr_lem c h r
implements ret c r h ne = Stack.ret_lem c h r
implements key_a c r h ne = key_a_from c.key_fifo_i c r
implements drw c r h ne = Devices.drw_lem c h r
implements ram_drw c r h ne = Devices.ram_drw_lem c h r
implements hlt c r h ne = absurd (ne refl)

-- The state after the two fetch cycles.
abbrev pub after_fetch : Cpu → Cpu
after_fetch c = record c {
  sc = 2;
  ir = c.ram c.ip;
  ip = plus c.ip 1;
  mar = c.ip;
  ticks = c.ticks + 1 + 1;
}

fetch_raw :
    (c : Cpu) (r : Bool)
    → steps 2 (record c { sc = 0 }) r
      ≡ some (record (after_fetch c) { ir = low_bits (c.ram c.ip) 8 }, r)
unfolding microcode micro
fetch_raw c r = refl

fetch_lem : (c : Cpu) (r : Bool) → IsValid c → c.sc ≡ 0 → steps 2 c r ≡ some (after_fetch c, r)
unfolding AllBytes
fetch_lem c r h e =
    let byte : low_bits (c.ram c.ip) 8 ≡ c.ram c.ip = omega (arith, h.ram_bytes c.ip) in
    ap (λ k. steps 2 (record c { sc = k }) r) e
    ∙ (fetch_raw c r ∙ ap (λ k. some (record (after_fetch c) { ir = k }, r)) byte)

after_fetch-IsValid : (c : Cpu) → IsValid c → IsValid (after_fetch c)
unfolding AllBytes
after_fetch-IsValid c h =
    let ip : plus c.ip 1 < 2 ^ 16 = omega arith in
    let two : 2 < 16 = omega arith in assumption (ip, two, h.ram_bytes c.ip, h.ip_lt)

fetched-eq :
    (i : Instruction) (c : Cpu) → c.ram c.ip ≡ opcode i → after_fetch c ≡ fetched i (after_fetch c)
unfolding fetched
fetched-eq i c e = λ j. record (after_fetch c) { ir = e j }

module _ (i : Instruction) (c : Cpu) (r : Bool) (h : IsValid c) (start : c.sc ≡ 0)
    (code : c.ram c.ip ≡ opcode i) where
  whole :
      (n : ℕ)
      → observe (run control_rom (2 + n) c r) ≡ observe (steps n (fetched i (after_fetch c)) r)
  whole n = ap observe (
      run-steps (2 + n) c r h
      ∙ (steps-add 2 n c (after_fetch c) r r (fetch_lem c r h start)
          ∙ ap (λ d. steps n d r) (fetched-eq i c code)))

  -- From step 0 of a valid state the control ROM and `tick` carry out the instruction at IP as the
  -- instruction set says, in two cycles of fetch and `cycles` more, and end at step 0 with the flag
  -- `running` as it was; `KEY_A` on an exhausted queue is the only fault. `HLT` is left out.
  pub run-expected :
      i ≢ hlt
      → observe (run control_rom (2 + cycles i (after_fetch c)) c r)
        ≡ expected i (record (machine c) { ip = plus c.ip 1 }) r
  run-expected ne =
      whole (cycles i (after_fetch c)) ∙ implements i (after_fetch c) r (after_fetch-IsValid c h) ne

halts : (c : Cpu) (r : Bool) → observe (steps 1 (fetched hlt c) r) ≡ some (machine c, 1, false)
unfolding microcode
halts c r = refl

-- `HLT` clears `running` in its third cycle and changes nothing else that a program sees, but it
-- leaves the step counter at 1.
pub run-hlt :
    (c : Cpu) (r : Bool)
    → IsValid c
    → c.sc ≡ 0
    → c.ram c.ip ≡ opcode hlt
    → observe (run control_rom 3 c r) ≡ some (record (machine c) { ip = plus c.ip 1 }, 1, false)
run-hlt c r h start code = whole hlt c r h start code 1 ∙ halts (after_fetch c) r

-- No instruction takes more than sixteen cycles with its fetch, one round of the step counter.
pub cycles-le : (i : Instruction) (c : Cpu) → 2 + cycles i c ≤ 16
unfolding cycles
cycles-le jmprz c = omega (arith, branch_cycles-le jmprz c)
cycles-le jmprn c = omega (arith, branch_cycles-le jmprn c)
cycles-le jmprc c = omega (arith, branch_cycles-le jmprc c)
cycles-le jmprnz c = omega (arith, branch_cycles-le jmprnz c)
cycles-le jmprnn c = omega (arith, branch_cycles-le jmprnn c)
cycles-le jmprnc c = omega (arith, branch_cycles-le jmprnc c)
cycles-le nop c = omega arith
cycles-le _ c = omega arith
