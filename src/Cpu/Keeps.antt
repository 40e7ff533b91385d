-- ===== src/Cpu/Keeps.antt =====
-- A clock cycle keeps the registers within their widths.
use jaris.Base.{ℕ, ◌+◌, ◌-◌, ◌*◌, ◌/◌, ◌%◌, ◌^◌, ◌<◌, Bool, true, false, ◌&&◌, arith, bit_or}
use jaris.Base.{bit_or-add, ◌<<<◌, low_bits, u8, u16}
use jaris.Base.{
  ℤ, pos, negsuc, Option, none, some, ltb, if◌then◌else◌, when, when-keeps, Bool-cases, inl, inr,
}
use jaris.Cpu.Flags.{alu-lt}
use jaris.Cpu.Valid.{
  byte-lt-word, IsValid, AllBytes, update-AllBytes, gpu_write-IsValid, put_fr-IsValid,
  put_sp-IsValid, put_ip-IsValid, put_a-IsValid, put_b-IsValid, put_mar-IsValid, put_ram-IsValid,
  put_x-IsValid, put_y-IsValid, put_ir-IsValid, put_sc-IsValid, put_sec-IsValid, put_ndx-IsValid,
  put_mem-IsValid, put_gpua-IsValid,
}
use jaris.Microcode.{MicrocodeFlag, check_microcode}
use jaris.Cpu.State.{Cpu}
use jaris.Cpu.Tick.{
  alu, drive_bus, latch, latch_devices, finish, execute, pop_key, pop_from, with_key,
}
use jaris.Cpu.Tick.{
  put_fr, put_sp, put_ip, put_a, put_b, put_mar, put_ram, put_x, put_y, put_ir, put_sc,
}
use jaris.Cpu.Tick.{put_sec, put_ndx, put_mem, put_gpua, gpu_write, ram_written}

if-lt : (test : Bool) (v d bound : ℕ) → v < bound → d < bound → (if test then v else d) < bound
if-lt true v d bound h k = h
if-lt false v d bound h k = k

pub word-lt : (hi lo : ℕ) → hi < 256 → lo < 256 → bit_or (hi <<< 8) lo < 2 ^ 16
word-lt hi lo h k = omega (arith, bit_or-add 8 hi lo k)

sector-lt-word : {v : ℕ} → v < 2 ^ 12 → v < 2 ^ 16
sector-lt-word h = omega arith

u16-lt : (v : ℕ) → u16 v < 2 ^ 16
u16-lt v = omega arith

zero-lt-word : 0 < 2 ^ 16
zero-lt-word = omega arith

drive_bus-IsValid :
    (mc : ℕ) (cpu : Cpu)
    → IsValid cpu
    → ((drive_bus mc cpu).0 < 2 ^ 16) × IsValid (drive_bus mc cpu).1
unfolding drive_bus AllBytes
drive_bus-IsValid mc cpu h =
    let sum = alu-lt mc cpu.x cpu.y h.x_lt h.y_lt in
    let flagged_sp =
      (when (check_microcode mc MicrocodeFlag.aluo) (put_fr (alu mc cpu.x cpu.y).1) cpu).sp in
    let flagged =
      when-keeps IsValid (check_microcode mc MicrocodeFlag.aluo) (put_fr (alu mc cpu.x cpu.y).1) cpu
        h (put_fr-IsValid _ cpu sum.1) in
    let counted = when-keeps IsValid (check_microcode mc MicrocodeFlag.spu) (put_sp _) _ flagged (
      put_sp-IsValid _ _ (
        if-lt (check_microcode mc MicrocodeFlag.spm) (u16 (flagged_sp + 2 ^ 16 - 2))
          (u16 (flagged_sp + 2)) (2 ^ 16) (omega arith) (omega arith))) in
    let core =
      if-lt (check_microcode mc MicrocodeFlag.ram && check_microcode mc MicrocodeFlag.ramo) _ _ _
        (if-lt (check_microcode mc MicrocodeFlag.ram16) _ _ _
          (word-lt _ _ (h.ram_bytes (cpu.mar / 2 * 2 + 1)) (h.ram_bytes (cpu.mar / 2 * 2)))
          (byte-lt-word (h.ram_bytes cpu.mar)))
        (if-lt (check_microcode mc MicrocodeFlag.bo) _ _ _ h.b_lt (
          if-lt (check_microcode mc MicrocodeFlag.ao) _ _ _ h.a_lt
            (if-lt (check_microcode mc MicrocodeFlag.ipo) _ _ _ h.ip_lt zero-lt-word))) in
    (
      if-lt _ _ _ _ (sector-lt-word counted.sec_lt) (
          if-lt _ _ _ _ (byte-lt-word (counted.mem_bytes _)) (
            if-lt _ _ _ _ (byte-lt-word counted.ndx_lt)
              (if-lt _ _ _ _ flagged.sp_lt (if-lt _ _ _ _ sum.0 core)))),
      counted,
    )

ram_written-AllBytes :
    (wide : Bool) (bus : ℕ) (cpu : Cpu) → AllBytes cpu.ram → AllBytes (ram_written wide bus cpu)
ram_written-AllBytes true bus cpu h =
    update-AllBytes _ _ _ (omega arith) (update-AllBytes _ _ _ (omega arith) h)
ram_written-AllBytes false bus cpu h = update-AllBytes _ _ _ (omega arith) h

pub latch-IsValid :
    (mc bus : ℕ) (cpu : Cpu) → bus < 2 ^ 16 → IsValid cpu → IsValid (latch mc bus cpu)
unfolding latch
latch-IsValid mc bus cpu e h0 =
    let h1 =
      when-keeps IsValid (check_microcode mc MicrocodeFlag.ipi) (put_ip bus) cpu h0
        (put_ip-IsValid _ _ e) in
    let h2 =
      when-keeps IsValid (check_microcode mc MicrocodeFlag.ipp) (put_ip _) _ h1
        (put_ip-IsValid _ _ (u16-lt _)) in
    let h3 =
      when-keeps IsValid (check_microcode mc MicrocodeFlag.ai) (put_a bus) _ h2
        (put_a-IsValid _ _ e) in
    let h4 =
      when-keeps IsValid (check_microcode mc MicrocodeFlag.ahi) (put_a _) _ h3
        (put_a-IsValid _ _ (u16-lt _)) in
    let h5 =
      when-keeps IsValid (check_microcode mc MicrocodeFlag.mari) (put_mar bus) _ h4
        (put_mar-IsValid _ _ e) in
    let h6 =
      when-keeps IsValid (check_microcode mc MicrocodeFlag.bi) (put_b bus) _ h5
        (put_b-IsValid _ _ e) in
    let h7 = when-keeps IsValid _ (put_ram _) _ h6 (
      put_ram-IsValid _ _
        (ram_written-AllBytes (check_microcode mc MicrocodeFlag.ram16) bus _ h6.ram_bytes)) in
    let h8 =
      when-keeps IsValid (check_microcode mc MicrocodeFlag.xi) (put_x bus) _ h7
        (put_x-IsValid _ _ e) in
    let h9 =
      when-keeps IsValid (check_microcode mc MicrocodeFlag.yi) (put_y bus) _ h8
        (put_y-IsValid _ _ e) in
    let h10 =
      when-keeps IsValid (check_microcode mc MicrocodeFlag.spi) (put_sp bus) _ h9
        (put_sp-IsValid _ _ e) in
    when-keeps IsValid (check_microcode mc MicrocodeFlag.iri) (put_ir _) _ h10
      (put_ir-IsValid (low_bits bus 8) _ (omega arith))

latch_devices-IsValid :
    (mc bus : ℕ) (cpu : Cpu) → bus < 2 ^ 16 → IsValid cpu → IsValid (latch_devices mc bus cpu)
unfolding latch_devices
latch_devices-IsValid mc bus cpu e h0 =
    let h1 =
      when-keeps IsValid (check_microcode mc MicrocodeFlag.seci) (put_sec _) cpu h0
        (put_sec-IsValid (low_bits bus 12) _ (omega arith)) in
    let h2 =
      when-keeps IsValid (check_microcode mc MicrocodeFlag.ndxi) (put_ndx _) _ h1
        (put_ndx-IsValid (u8 bus) _ (omega arith)) in
    let h3 =
      when-keeps IsValid (check_microcode mc MicrocodeFlag.memi) (put_mem _) _ h2
        (put_mem-IsValid _ _ (update-AllBytes _ _ (low_bits bus 8) (omega arith) h2.mem_bytes)) in
    let h4 =
      when-keeps IsValid (check_microcode mc MicrocodeFlag.gpuai) (put_gpua bus) _ h3
        (put_gpua-IsValid _ _ e) in
    when-keeps IsValid (check_microcode mc MicrocodeFlag.gpui) (gpu_write bus) _ h4
      (gpu_write-IsValid bus _)

count-IsValid :
    (cpu : Cpu)
    → IsValid cpu
    → IsValid (record cpu { sc = (cpu.sc + 1) % 16; ticks = cpu.ticks + 1 })
count-IsValid cpu h = let e : (cpu.sc + 1) % 16 < 16 = omega arith in assumption e

finish-IsValid : (mc bus : ℕ) (cpu : Cpu) → bus < 2 ^ 16 → IsValid cpu → IsValid (finish mc bus cpu)
unfolding finish
finish-IsValid mc bus cpu e h = elim (Bool-cases (check_microcode mc MicrocodeFlag.scr)) [
  | inl f ↦ rw f (put_sc-IsValid 0 cpu (omega arith) h)
  | inr f ↦ rw f (count-IsValid _ (latch_devices-IsValid mc bus cpu e h))
]

shift-AllBytes :
    (n : ℕ) (fifo : ℕ → ℕ)
    → AllBytes fifo
    → AllBytes (λ j. if ltb j n then fifo (j + 1) else fifo j)
unfolding AllBytes
shift-AllBytes n fifo h = λ j. ground (arith, h j, h (j + 1))

-- What holds of a successful access to the bus, and of a successful cycle.
abbrev IsDriven : Option (ℕ × Cpu) → Type 0
IsDriven none = Unit {0}
IsDriven (some (bus, cpu)) = (bus < 2 ^ 16) × IsValid cpu

abbrev pub IsTicked : Option (Cpu × Bool) → Type 0
IsTicked none = Unit {0}
IsTicked (some (cpu, running)) = IsValid cpu

pop_from-IsDriven : (i : ℤ) (cpu : Cpu) → IsValid cpu → IsDriven (pop_from i cpu)
unfolding pop_from AllBytes
pop_from-IsDriven (negsuc n) cpu h = tt
pop_from-IsDriven (pos n) cpu h = elim (Bool-cases (ltb n 1024)) [
  | inl e ↦
      rw e (byte-lt-word (h.key_bytes 0), assumption (shift-AllBytes n cpu.key_fifo h.key_bytes))
  | inr e ↦ rw e tt
]

with_key-IsDriven :
    (key : Bool) (driven : ℕ × Cpu)
    → (driven.0 < 2 ^ 16) × IsValid driven.1
    → IsDriven (with_key key driven)
unfolding pop_key
with_key-IsDriven true driven h = pop_from-IsDriven driven.1.key_fifo_i driven.1 h.1
with_key-IsDriven false driven h = h

ends-IsTicked :
    (mc : ℕ) (running : Bool) (o : Option (ℕ × Cpu))
    → IsDriven o
    → IsTicked (elim o [
      | none ↦ none
      | some (bus, cpu') ↦ some (finish mc bus (latch mc bus cpu'), running)
    ])
ends-IsTicked mc running none h = tt
ends-IsTicked mc running (some (bus, cpu)) h =
    finish-IsValid mc bus _ h.0 (latch-IsValid mc bus cpu h.0 h.1)

-- Every microcode word keeps the registers within their widths.
pub execute-IsTicked :
    (mc : ℕ) (cpu : Cpu) (running : Bool) → IsValid cpu → IsTicked (execute mc cpu running)
unfolding execute
execute-IsTicked mc cpu running h = ends-IsTicked mc _ _ (
    with_key-IsDriven (check_microcode mc MicrocodeFlag.keyo) _ (
      drive_bus-IsValid mc _ (
        when-keeps IsValid (check_microcode mc MicrocodeFlag.halt) (put_sc 0) cpu h
          (put_sc-IsValid 0 cpu (omega arith)))))
