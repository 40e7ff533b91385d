-- ===== src/Isa/Refine/Stack.antt =====
-- src/runtime.c, the microcode of the stack and the calls: what it does, and in how many cycles.
use jaris.Base.{refl}
use jaris.Instructions.{Instruction}
use jaris.Cpu.State.{Cpu}
use jaris.Cpu.Valid.{IsValid, AllBytes, byte-lt-word}
use jaris.Isa.State.{plus, word_at, with_word}
use jaris.Isa.Run.{Implements, microcode}
use jaris.Isa.Bridge.{
  adder_plain, word_lem, word_at-lt, with_word_lem, with_word-AllBytes, sp_down, sp_back,
  word_after_lem,
}

module _ (c : Cpu) (h : IsValid c) where
  pub incsp_lem : Implements Instruction.incsp 2 c
  unfolding microcode
  incsp_lem r = refl

  pub decsp_lem : Implements Instruction.decsp 2 c
  unfolding microcode
  decsp_lem r = rw (sp_down c.sp)

  pub pusha_lem : Implements Instruction.pusha 3 c
  unfolding microcode
  pusha_lem r = rw (with_word_lem c.ram c.sp c.a h.a_lt, sp_down c.sp)

  pub pushb_lem : Implements Instruction.pushb 3 c
  unfolding microcode
  pushb_lem r = rw (with_word_lem c.ram c.sp c.b h.b_lt, sp_down c.sp)

  pub popa_lem : Implements Instruction.popa 4 c
  unfolding microcode
  popa_lem r = rw (word_lem c.ram h.ram_bytes)

  pub popb_lem : Implements Instruction.popb 4 c
  unfolding microcode
  popb_lem r = rw (word_lem c.ram h.ram_bytes)

  pub peeka_lem : Implements Instruction.peeka 4 c
  unfolding microcode
  peeka_lem r = rw (word_lem c.ram h.ram_bytes, sp_back c.sp h.sp_lt)

  pub peekb_lem : Implements Instruction.peekb 4 c
  unfolding microcode
  peekb_lem r = rw (word_lem c.ram h.ram_bytes, sp_back c.sp h.sp_lt)

  pub peekar_lem : Implements Instruction.peekar 6 c
  unfolding microcode AllBytes
  peekar_lem r =
      let e = adder_plain c.sp (c.ram c.ip) h.sp_lt (byte-lt-word (h.ram_bytes c.ip)) in
      rw (e.0, e.1, word_lem c.ram h.ram_bytes)

  pub pushar_lem : Implements Instruction.pushar 6 c
  unfolding microcode AllBytes
  pushar_lem r =
      let e = adder_plain c.sp (c.ram c.ip) h.sp_lt (byte-lt-word (h.ram_bytes c.ip)) in
      rw (e.0, e.1, with_word_lem c.ram (plus c.sp (c.ram c.ip)) c.a h.a_lt)

  pub call_lem : Implements Instruction.call 5 c
  unfolding microcode
  call_lem r = rw (
    word_after_lem c.ram c.sp c.ip c.ip h.ram_bytes h.ip_lt,
    with_word_lem c.ram c.sp c.ip h.ip_lt,
    sp_down c.sp,
  )

  pub callr_lem : Implements Instruction.callr 6 c
  unfolding microcode AllBytes
  callr_lem r =
      let e =
        adder_plain (word_at (with_word c.ram c.sp c.ip) c.ip) c.ip
          (word_at-lt _ (with_word-AllBytes c.ram h.ram_bytes c.sp c.ip h.ip_lt) c.ip) h.ip_lt in
      rw (
        word_after_lem c.ram c.sp c.ip c.ip h.ram_bytes h.ip_lt,
        with_word_lem c.ram c.sp c.ip h.ip_lt,
        sp_down c.sp,
        e.0,
        e.1,
      )

  pub ret_lem : Implements Instruction.ret 6 c
  unfolding microcode
  ret_lem r = rw (word_lem c.ram h.ram_bytes)
