-- ===== src/Isa/Refine/Moves.antt =====
-- src/runtime.c, the microcode of loads, jumps and register moves: what it does, and in how many cycles.
use jaris.Base.{refl}
use jaris.Instructions.{Instruction}
use jaris.Cpu.State.{Cpu}
use jaris.Cpu.Valid.{IsValid, AllBytes}
use jaris.Isa.State.{word_at}
use jaris.Isa.Run.{Implements, microcode}
use jaris.Isa.Bridge.{
  adder_plain, word_lem, word_at-lt, with_word_lem, with_byte_lem, high_byte_lem,
}

module _ (c : Cpu) (h : IsValid c) where
  pub ram_al_lem : Implements Instruction.ram_al 3 c
  unfolding microcode
  ram_al_lem r = refl

  pub ram_bl_lem : Implements Instruction.ram_bl 3 c
  unfolding microcode
  ram_bl_lem r = refl

  pub ram_a_lem : Implements Instruction.ram_a 4 c
  unfolding microcode
  ram_a_lem r = rw (word_lem c.ram h.ram_bytes)

  pub ram_b_lem : Implements Instruction.ram_b 4 c
  unfolding microcode
  ram_b_lem r = rw (word_lem c.ram h.ram_bytes)

  pub jmp_lem : Implements Instruction.jmp 3 c
  unfolding microcode
  jmp_lem r = rw (word_lem c.ram h.ram_bytes)

  pub jmpr_lem : Implements Instruction.jmpr 4 c
  unfolding microcode AllBytes
  jmpr_lem r =
      let e = adder_plain (word_at c.ram c.ip) c.ip (word_at-lt c.ram h.ram_bytes c.ip) h.ip_lt in
      rw (word_lem c.ram h.ram_bytes, e.0, e.1)

  pub jmpa_lem : Implements Instruction.jmpa 2 c
  unfolding microcode
  jmpa_lem r = refl

  pub jmpar_lem : Implements Instruction.jmpar 4 c
  unfolding microcode
  jmpar_lem r = let e = adder_plain c.a c.ip h.a_lt h.ip_lt in rw (e.0, e.1)

  pub a_b_lem : Implements Instruction.a_b 2 c
  unfolding microcode
  a_b_lem r = refl

  pub b_a_lem : Implements Instruction.b_a 2 c
  unfolding microcode
  b_a_lem r = refl

  pub b_ah_lem : Implements Instruction.b_ah 2 c
  unfolding microcode
  b_ah_lem r = rw (high_byte_lem c.b c.a)

  pub al_rb_lem : Implements Instruction.al_rb 3 c
  unfolding microcode
  al_rb_lem r = rw (with_byte_lem c.ram c.b c.a)

  pub a_rb_lem : Implements Instruction.a_rb 3 c
  unfolding microcode
  a_rb_lem r = rw (with_word_lem c.ram c.b c.a h.a_lt)

  pub rb_al_lem : Implements Instruction.rb_al 3 c
  unfolding microcode
  rb_al_lem r = refl

  pub rb_a_lem : Implements Instruction.rb_a 3 c
  unfolding microcode
  rb_a_lem r = rw (word_lem c.ram h.ram_bytes)

  pub a_sp_lem : Implements Instruction.a_sp 2 c
  unfolding microcode
  a_sp_lem r = refl

  pub sp_a_lem : Implements Instruction.sp_a 2 c
  unfolding microcode
  sp_a_lem r = refl
