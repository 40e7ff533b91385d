-- ===== src/Isa/Refine/Devices.antt =====
-- src/runtime.c, the microcode of the mass memory and the screen: what it does, and in how many cycles.
use jaris.Base.{◌+◌, ◌*◌, refl}
use jaris.Instructions.{Instruction}
use jaris.Cpu.State.{Cpu}
use jaris.Cpu.Valid.{IsValid, AllBytes, byte-lt-word}
use jaris.Isa.Run.{Implements, microcode}
use jaris.Isa.Bridge.{
  adder_inc, with_byte_lem, mem_index_lem, high_byte_lem, byte_mod, ndx_wraps, pattern_lem,
  attribute_lem,
}

module _ (c : Cpu) (h : IsValid c) where
  pub a_sec_lem : Implements Instruction.a_sec 2 c
  unfolding microcode
  a_sec_lem r = refl

  pub sec_a_lem : Implements Instruction.sec_a 2 c
  unfolding microcode
  sec_a_lem r = refl

  pub ram_ndx_lem : Implements Instruction.ram_ndx 3 c
  unfolding microcode AllBytes
  ram_ndx_lem r = rw (byte_mod (h.ram_bytes c.ip))

  pub incndx_lem : Implements Instruction.incndx 4 c
  unfolding microcode
  incndx_lem r = let e = adder_inc c.ndx (byte-lt-word h.ndx_lt) in rw (e.0, e.1, ndx_wraps c.ndx)

  pub ndx_a_lem : Implements Instruction.ndx_a 2 c
  unfolding microcode
  ndx_a_lem r = refl

  pub a_ndx_lem : Implements Instruction.a_ndx 2 c
  unfolding microcode
  a_ndx_lem r = refl

  pub mem_a_lem : Implements Instruction.mem_a 2 c
  unfolding microcode
  mem_a_lem r = rw (mem_index_lem c.sec c.ndx h.ndx_lt)

  pub mem_ah_lem : Implements Instruction.mem_ah 2 c
  unfolding microcode AllBytes
  mem_ah_lem r = rw (
    mem_index_lem c.sec c.ndx h.ndx_lt,
    high_byte_lem (c.mem (c.sec * 256 + c.ndx)) c.a,
    byte_mod (h.mem_bytes (c.sec * 256 + c.ndx)),
  )

  pub a_mem_lem : Implements Instruction.a_mem 2 c
  unfolding microcode
  a_mem_lem r =
      rw (mem_index_lem c.sec c.ndx h.ndx_lt, with_byte_lem c.mem (c.sec * 256 + c.ndx) c.a)

  pub drw_lem : Implements Instruction.drw 3 c
  unfolding microcode
  drw_lem r =
      rw (pattern_lem c.pattern_ram c.b c.a h.b_lt, attribute_lem c.attribute_ram c.b c.a h.b_lt)

  pub ram_drw_lem : Implements Instruction.ram_drw 4 c
  unfolding microcode
  ram_drw_lem r = rw (
    pattern_lem c.pattern_ram c.b (c.ram c.ip) h.b_lt,
    attribute_lem c.attribute_ram c.b (c.ram c.ip) h.b_lt,
  )
