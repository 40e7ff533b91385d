-- ===== src/Cpu/Tick.antt =====
-- src/runtime.c `tick`: one clock cycle, as the phases of its body in their order.
use jaris.Base.{ℕ, suc, ◌+◌, ◌-◌, ◌*◌, ◌/◌, ◌%◌, ◌^◌, Bool, true, false, not, ◌&&◌, ltb, ◌==◌}
use jaris.Base.{Option, none, some, if◌then◌else◌, when, bit_or, bit_and, bit_xor}
use jaris.Base.{◌>>>◌, ◌<<<◌, low_bits, u8, u16, ℤ, pos, negsuc, dec}
use jaris.Microcode.{MicrocodeFlag, check_microcode}
use jaris.Microcode.MicrocodeFlag.{
  halt, ipi, ipo, ipp, ai, ahi, ao, mari, bi, bo, ramo, ram16, xi, yi,
}
use jaris.Microcode.MicrocodeFlag.{
  aluo, alu_sub, alu_shr, alu_and, ci, spi, spo, spu, spm, iri, scr,
}
use jaris.Microcode.MicrocodeFlag.{seci, seco, ndxi, ndxo, memi, memo, keyo, gpuai, gpui}
use jaris.Rom.Calls.{Rom}
use jaris.Cpu.State.{Cpu, update}

abbrev pub bool_int : Bool → ℕ
bool_int true = 1
bool_int false = 0

-- `(bus == 0) | ((bus >> 15) << 1)`
abbrev pub zero_negative : ℕ → ℕ
zero_negative bus = bit_or (bool_int (bus == 0)) (bus >>> 15 <<< 1)

-- The adder: `X`, inverted under `_SUB`, with the carry in, plus `Y`.
unfoldable pub adder : Bool → Bool → ℕ → ℕ → ℕ × ℕ
adder sub carry_in x y =
    let result = when sub (λ r. bit_xor r 0xffff) x in
    let result = when carry_in (λ r. u16 (suc r)) result in
    let bus = u16 (result + y) in (bus, u8 (bit_or (zero_negative bus) ((result + y) >>> 16 <<< 2)))

-- The word on the bus and the flags that the ALU gives for `X` and `Y`.
unfoldable pub alu : ℕ → ℕ → ℕ → ℕ × ℕ
alu mc x y =
    if check_microcode mc alu_and
    then (let bus = bit_and x y in (bus, u8 (zero_negative bus)))
    else if check_microcode mc alu_shr
    then (let bus = x >>> 1 in (bus, u8 (bit_or (zero_negative bus) (low_bits x 1 <<< 2))))
    else adder (check_microcode mc alu_sub) (check_microcode mc ci) x y

-- The register of the mass memory that is addressed: `cpu->NDX | (cpu->SEC << 8)`.
abbrev pub mem_index : Cpu → ℕ
mem_index cpu = bit_or cpu.ndx (cpu.sec <<< 8)

-- The word at the word address of MAR: `(RAM[(MAR / 2) * 2 + 1] << 8) | RAM[(MAR / 2) * 2]`.
abbrev pub ram_word : Cpu → ℕ
ram_word cpu = bit_or (cpu.ram (cpu.mar / 2 * 2 + 1) <<< 8) (cpu.ram (cpu.mar / 2 * 2))

abbrev pub put_fr : ℕ → Cpu → Cpu
put_fr v cpu = record cpu { fr = v }

abbrev pub put_sp : ℕ → Cpu → Cpu
put_sp v cpu = record cpu { sp = v }

-- From `IPo` to `SECo`: who drives the bus. The ALU sets FR, and SP counts.
unfoldable pub drive_bus : ℕ → Cpu → ℕ × Cpu
drive_bus mc cpu =
    let bus = if check_microcode mc ipo then cpu.ip else 0 in
    let bus = if check_microcode mc ao then cpu.a else bus in
    let bus = if check_microcode mc bo then cpu.b else bus in
    let bus =
      if check_microcode mc MicrocodeFlag.ram && check_microcode mc ramo
      then (if check_microcode mc ram16 then ram_word cpu else cpu.ram cpu.mar)
      else bus in
    let out = alu mc cpu.x cpu.y in
    let bus = if check_microcode mc aluo then out.0 else bus in
    let cpu = when (check_microcode mc aluo) (put_fr out.1) cpu in
    let bus = if check_microcode mc spo then cpu.sp else bus in
    let cpu =
      when (check_microcode mc spu)
        (put_sp (if check_microcode mc spm then u16 (cpu.sp + 2 ^ 16 - 2) else u16 (cpu.sp + 2)))
        cpu in
    let bus = if check_microcode mc ndxo then cpu.ndx else bus in
    let bus = if check_microcode mc memo then cpu.mem (mem_index cpu) else bus in
    let bus = if check_microcode mc seco then cpu.sec else bus in (bus, cpu)

-- `KEYo`: the head of the queue goes on the bus, `memcpy` moves `key_fifo_i` bytes down, and the
-- count falls. `none` is the `memcpy` out of bounds: the count is cast to `size_t`, so a negative
-- one is a huge length, and the queue has 1024 bytes.
unfoldable pub pop_from : ℤ → Cpu → Option (ℕ × Cpu)
pop_from (negsuc n) cpu = none
pop_from (pos n) cpu =
    if ltb n 1024
    then some (
      cpu.key_fifo 0,
      record cpu {
        key_fifo = λ j. if ltb j n then cpu.key_fifo (j + 1) else cpu.key_fifo j;
        key_fifo_i = dec (pos n);
      },
    )
    else none

unfoldable pub pop_key : Cpu → Option (ℕ × Cpu)
pop_key cpu = pop_from cpu.key_fifo_i cpu

abbrev pub put_ip : ℕ → Cpu → Cpu
put_ip v cpu = record cpu { ip = v }

abbrev pub put_a : ℕ → Cpu → Cpu
put_a v cpu = record cpu { a = v }

abbrev pub put_b : ℕ → Cpu → Cpu
put_b v cpu = record cpu { b = v }

abbrev pub put_mar : ℕ → Cpu → Cpu
put_mar v cpu = record cpu { mar = v }

abbrev pub put_ram : (ℕ → ℕ) → Cpu → Cpu
put_ram v cpu = record cpu { ram = v }

abbrev pub put_x : ℕ → Cpu → Cpu
put_x v cpu = record cpu { x = v }

abbrev pub put_y : ℕ → Cpu → Cpu
put_y v cpu = record cpu { y = v }

abbrev pub put_ir : ℕ → Cpu → Cpu
put_ir v cpu = record cpu { ir = v }

-- The RAM after `bus` is written at MAR, as a byte or as a word.
abbrev pub ram_written : Bool → ℕ → Cpu → ℕ → ℕ
ram_written true bus cpu =
    update (update cpu.ram (cpu.mar / 2 * 2 + 1) (u8 (bus >>> 8))) (cpu.mar / 2 * 2)
      (low_bits bus 8)
ram_written false bus cpu = update cpu.ram cpu.mar (u8 bus)

-- From `IPi` to `IRi`: who takes the bus.
unfoldable pub latch : ℕ → ℕ → Cpu → Cpu
latch mc bus cpu =
    let cpu = when (check_microcode mc ipi) (put_ip bus) cpu in
    let cpu = when (check_microcode mc ipp) (put_ip (u16 (cpu.ip + 1))) cpu in
    let cpu = when (check_microcode mc ai) (put_a bus) cpu in
    let cpu =
      when (check_microcode mc ahi) (put_a (u16 (bit_or (bus <<< 8) (low_bits cpu.a 8)))) cpu in
    let cpu = when (check_microcode mc mari) (put_mar bus) cpu in
    let cpu = when (check_microcode mc bi) (put_b bus) cpu in
    let cpu =
      when (check_microcode mc MicrocodeFlag.ram && not (check_microcode mc ramo))
        (put_ram (ram_written (check_microcode mc ram16) bus cpu)) cpu in
    let cpu = when (check_microcode mc xi) (put_x bus) cpu in
    let cpu = when (check_microcode mc yi) (put_y bus) cpu in
    let cpu = when (check_microcode mc spi) (put_sp bus) cpu in
    when (check_microcode mc iri) (put_ir (low_bits bus 8)) cpu

abbrev pub put_sec : ℕ → Cpu → Cpu
put_sec v cpu = record cpu { sec = v }

abbrev pub put_ndx : ℕ → Cpu → Cpu
put_ndx v cpu = record cpu { ndx = v }

abbrev pub put_mem : (ℕ → ℕ) → Cpu → Cpu
put_mem v cpu = record cpu { mem = v }

abbrev pub put_gpua : ℕ → Cpu → Cpu
put_gpua v cpu = record cpu { gpua = v }

-- A byte written to the screen's pattern RAM or attribute RAM, by the top bit of GPUA.
abbrev pub gpu_write : ℕ → Cpu → Cpu
gpu_write bus cpu =
    let pattern = low_bits (cpu.gpua >>> 15) 1 == 1 in
    let written = λ (array : ℕ → ℕ). update array (low_bits cpu.gpua 15) (low_bits bus 8) in
    record cpu {
      pattern_ram = when pattern written cpu.pattern_ram;
      attribute_ram = when (not pattern) written cpu.attribute_ram;
    }

-- From `SECi` to `GPUi`, which `SCr` skips.
unfoldable pub latch_devices : ℕ → ℕ → Cpu → Cpu
latch_devices mc bus cpu =
    let cpu = when (check_microcode mc seci) (put_sec (low_bits bus 12)) cpu in
    let cpu = when (check_microcode mc ndxi) (put_ndx (u8 bus)) cpu in
    let cpu =
      when (check_microcode mc memi) (put_mem (update cpu.mem (mem_index cpu) (low_bits bus 8)))
        cpu in
    let cpu = when (check_microcode mc gpuai) (put_gpua bus) cpu in
    when (check_microcode mc gpui) (gpu_write bus) cpu

abbrev pub put_sc : ℕ → Cpu → Cpu
put_sc v cpu = record cpu { sc = v }

-- The end of the cycle: `SCr` restarts the step counter and returns; else it counts modulo 16.
unfoldable pub finish : ℕ → ℕ → Cpu → Cpu
finish mc bus cpu =
    if check_microcode mc scr
    then put_sc 0 cpu
    else (let cpu = latch_devices mc bus cpu in
        record cpu { sc = (cpu.sc + 1) % 16; ticks = cpu.ticks + 1 })

-- With `KEYo` the key takes the place of what else is on the bus.
abbrev pub with_key : Bool → ℕ × Cpu → Option (ℕ × Cpu)
with_key true driven = pop_key driven.1
with_key false driven = some driven

-- The body of `tick` under the microcode word `mc`.
unfoldable pub execute : ℕ → Cpu → Bool → Option (Cpu × Bool)
execute mc cpu running =
    let halted = check_microcode mc halt in
    let cpu = when halted (put_sc 0) cpu in
    elim (with_key (check_microcode mc keyo) (drive_bus mc cpu)) [
      | none ↦ none
      | some (bus, cpu') ↦
          some (finish mc bus (latch mc bus cpu'), if halted then false else running)
    ]

-- The index of the microcode word: `(IR & 0b111111) | (SC << 6) | (FR << (6 + 4))`.
abbrev pub word_index : Cpu → ℕ
word_index cpu = bit_or (bit_or (low_bits cpu.ir 6) (cpu.sc <<< 6)) (cpu.fr <<< 10)

-- One clock cycle under a control ROM; the flag is `*running`. `none` is a failed assertion or an
-- access out of bounds.
unfoldable pub tick : Rom → Cpu → Bool → Option (Cpu × Bool)
tick rom cpu running =
    if rom (low_bits cpu.ir 6) == 0 then none else execute (rom (word_index cpu)) cpu running
