-- ===== src/Isa/Refine/Arith.antt =====
-- src/runtime.c, the microcode of the arithmetic instructions: what it does, and in how many cycles.
use jaris.Base.{refl, arith, bit_and, bit_and-le}
use jaris.Instructions.{Instruction}
use jaris.Cpu.State.{Cpu}
use jaris.Cpu.Valid.{IsValid}
use jaris.Isa.Run.{Implements, microcode}
use jaris.Isa.Bridge.{
  adder_plain, adder_inc, adder_dec, adder_sub, shr_flags, flags_of_zero, plain_flags,
}

module _ (c : Cpu) (h : IsValid c) where
  pub inca_lem : Implements Instruction.inca 4 c
  unfolding microcode
  inca_lem r = let e = adder_inc c.a h.a_lt in rw (e.0, e.1)

  pub deca_lem : Implements Instruction.deca 4 c
  unfolding microcode
  deca_lem r = let e = adder_dec c.a h.a_lt in rw (e.0, e.1)

  pub incb_lem : Implements Instruction.incb 4 c
  unfolding microcode
  incb_lem r = let e = adder_inc c.b h.b_lt in rw (e.0, e.1)

  pub sum_lem : Implements Instruction.sum 4 c
  unfolding microcode
  sum_lem r = let e = adder_plain c.a c.b h.a_lt h.b_lt in rw (e.0, e.1)

  pub sub_lem : Implements Instruction.sub 4 c
  unfolding microcode
  sub_lem r = let e = adder_sub c.a c.b h.a_lt h.b_lt in rw (e.0, e.1)

  pub shl_lem : Implements Instruction.shl 4 c
  unfolding microcode
  shl_lem r = let e = adder_plain c.a c.a h.a_lt h.a_lt in rw (e.0, e.1)

  pub shr_lem : Implements Instruction.shr 3 c
  unfolding microcode
  shr_lem r = rw (shr_flags c.a h.a_lt)

  pub and_lem : Implements Instruction.and 4 c
  unfolding microcode
  and_lem r = rw (flags_of_zero (bit_and c.a c.b) (omega (arith, bit_and-le c.a c.b)))

  pub cmpa_lem : Implements Instruction.cmpa 4 c
  unfolding microcode
  cmpa_lem r = let e = adder_plain c.a 0 h.a_lt (omega arith) in rw (e.1, plain_flags c.a h.a_lt)

  pub cmpb_lem : Implements Instruction.cmpb 4 c
  unfolding microcode
  cmpb_lem r = let e = adder_plain c.b 0 h.b_lt (omega arith) in rw (e.1, plain_flags c.b h.b_lt)

  pub nop_lem : Implements Instruction.nop 1 c
  unfolding microcode
  nop_lem r = refl
