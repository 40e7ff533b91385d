-- ===== src/Cpu/Boot.antt =====
-- src/runtime.c `cpu_init`: the first sector of the disk is copied to the top of the RAM.
use jaris.Base.{
  ℕ, zero, suc, ◌+◌, ◌-◌, ◌*◌, ◌%◌, ◌^◌, ◌<◌, ◌≤◌, ◌≡◌, refl, arith, ◌∙◌, ap, ◌&&◌, ltb, leb, ◌==◌,
  if◌then◌else◌,
}
use jaris.Base.{Option, some, true, ◌>>◌, ensure, low_bits, bit_or, bit_or_comm, bit_or-add, pos}
use jaris.Cpu.State.{Cpu, update}
use jaris.Cpu.Tick.{mem_index}
use jaris.Cpu.Valid.{IsValid, AllBytes, update-AllBytes}

-- The state of zeros.
abbrev pub zero_cpu : Cpu
zero_cpu = record {
  a = 0;
  b = 0;
  sp = 0;
  ip = 0;
  x = 0;
  y = 0;
  mar = 0;
  sec = 0;
  ndx = 0;
  fr = 0;
  sc = 0;
  ir = 0;
  ram = λ i. 0;
  mem = λ i. 0;
  key_fifo = λ i. 0;
  key_fifo_i = pos 0;
  gpua = 0;
  attribute_ram = λ i. 0;
  pattern_ram = λ i. 0;
  ticks = 0;
}

-- The address, MAR and NDX of one round of the loop.
unfoldable pub boot_address : Cpu → Cpu
boot_address cpu =
    let ip = low_bits (cpu.ip + 2 ^ 16 - 1) 16 in
    record cpu { ip = ip; mar = ip; ndx = low_bits ip 8 }

unfoldable pub boot_step : Cpu → Cpu
boot_step cpu =
    let cpu = boot_address cpu in
    record cpu { ram = update cpu.ram cpu.mar (cpu.mem (mem_index cpu)) }

unfoldable pub boot : ℕ → Cpu → Cpu
boot zero cpu = cpu
boot (suc n) cpu = boot n (boot_step cpu)

-- The disk is a file of `size` bytes; one of fewer than 2^19 fails the assertion on `fread`.
unfoldable pub cpu_init : ℕ → (ℕ → ℕ) → Option Cpu
cpu_init size file = do
  ensure (leb (2 ^ 19) size)
  let cpu = boot 256 (record zero_cpu { mem = λ i. if ltb i (2 ^ 19) then file i else 0 })
  ensure (cpu.ip == 0xff00)
  some cpu

index_lem : (v : ℕ) → v < 256 → bit_or v (0 * 2 ^ 8) ≡ v
index_lem v h = omega (arith, bit_or_comm v 0, bit_or-add 8 0 v h)

-- The state after `n` rounds that start with IP at `p`, counted from above.
record Booted (n p : ℕ) (cpu cpu' : Cpu) : Type 0 where
  ip : cpu'.ip ≡ (p - n) % 2 ^ 16
  sec : cpu'.sec ≡ 0
  mem : cpu'.mem ≡ cpu.mem
  ram : (i : ℕ) → cpu'.ram i ≡ (if leb (p - n) i && ltb i p then cpu.mem (i % 256) else cpu.ram i)
  valid : IsValid cpu'

boot_step-IsValid : (cpu : Cpu) → IsValid cpu → IsValid (boot_step cpu)
unfolding boot_step boot_address AllBytes
boot_step-IsValid cpu h =
    let d = boot_address cpu in
    let ram =
      update-AllBytes cpu.ram d.mar (cpu.mem (mem_index d)) (h.mem_bytes (mem_index d))
        h.ram_bytes in
    let address : low_bits (cpu.ip + 2 ^ 16 - 1) 16 < 2 ^ 16 = omega arith in
    let index : low_bits (low_bits (cpu.ip + 2 ^ 16 - 1) 16) 8 < 2 ^ 8 = omega arith in
    assumption (h, ram, address, index)

boot_step-ram :
    (cpu : Cpu) (q : ℕ)
    → low_bits (cpu.ip + 2 ^ 16 - 1) 16 ≡ q
    → cpu.sec ≡ 0
    → (i : ℕ) → (boot_step cpu).ram i ≡ (if q == i then cpu.mem (q % 256) else cpu.ram i)
unfolding boot_step boot_address
boot_step-ram cpu q e sec i = rw (e, sec, index_lem (q % 256) (omega arith)) refl

boot_lem :
    (n p : ℕ) (cpu : Cpu)
    → IsValid cpu
    → n ≤ p
    → p ≤ 2 ^ 16
    → cpu.ip ≡ p % 2 ^ 16
    → cpu.sec ≡ 0
    → Booted n p cpu (boot n cpu)
unfolding boot boot_step boot_address
boot_lem zero p cpu h np le ip sec = record {
  ip = omega arith;
  sec = sec;
  mem = refl;
  ram = λ i. ground arith;
  valid = h;
}
boot_lem (suc n) p cpu h np le ip sec =
    let d = boot_step cpu in
    let at : low_bits (cpu.ip + 2 ^ 16 - 1) 16 ≡ p - 1 = omega arith in
    let k =
      boot_lem n (p - 1) d (boot_step-IsValid cpu h) (omega arith) (omega arith) (omega arith)
        sec in
    record {
      ip = k.ip ∙ omega arith;
      sec = k.sec;
      mem = k.mem;
      ram = λ i. ground (arith, k.ram i, boot_step-ram cpu (p - 1) at sec i);
      valid = k.valid;
    }

zero-IsValid : (mem : ℕ → ℕ) → AllBytes mem → IsValid (record zero_cpu { mem = mem })
unfolding AllBytes
zero-IsValid mem h =
    let small : 0 < 256 = omega arith in
    record {
      a_lt = omega arith;
      b_lt = omega arith;
      sp_lt = omega arith;
      ip_lt = omega arith;
      x_lt = omega arith;
      y_lt = omega arith;
      mar_lt = omega arith;
      sec_lt = omega arith;
      ndx_lt = omega arith;
      fr_lt = omega arith;
      sc_lt = omega arith;
      ir_lt = omega arith;
      gpua_lt = omega arith;
      ram_bytes = λ i. small;
      mem_bytes = h;
      key_bytes = λ i. small;
      attribute_bytes = λ i. small;
      pattern_bytes = λ i. small;
    }

-- The machine after the boot.
pub record Started (file : ℕ → ℕ) (cpu : Cpu) : Type 0 where
  pub ip : cpu.ip ≡ 0xff00
  pub sc : cpu.sc ≡ 0
  pub sector : (i : ℕ) → i < 256 → cpu.ram (0xff00 + i) ≡ file i
  pub below : (i : ℕ) → i < 0xff00 → cpu.ram i ≡ 0
  pub disk : (i : ℕ) → i < 2 ^ 19 → cpu.mem i ≡ file i
  pub valid : IsValid cpu

boot-sc : (n : ℕ) (cpu : Cpu) → (boot n cpu).sc ≡ cpu.sc
unfolding boot boot_step boot_address
boot-sc zero cpu = refl
boot-sc (suc n) cpu = boot-sc n (boot_step cpu)

-- With a disk of at least 2^19 bytes the CPU always starts: at 0xFF00 and step 0, in a valid state,
-- with the first sector of the disk from 0xFF00 on, zeros below it and the disk in MEM.
pub cpu_init-Started :
    (size : ℕ) (file : ℕ → ℕ)
    → 2 ^ 19 ≤ size
    → AllBytes file
    → (cpu : Cpu) × (cpu_init size file ≡ some cpu) × Started file cpu
unfolding cpu_init AllBytes
cpu_init-Started size file big bytes =
    let mem = λ (i : ℕ). if ltb i (2 ^ 19) then file i else 0 in
    let cpu₀ : Cpu = record zero_cpu { mem = mem } in
    let mem_bytes : (i : ℕ) → mem i < 256 = λ i. ground (arith, bytes i) in
    let k =
      boot_lem 256 (2 ^ 16) cpu₀ (zero-IsValid mem mem_bytes) (omega arith) (omega arith)
        (omega arith) refl in
    let d = boot 256 cpu₀ in
    let fits : leb (2 ^ 19) size ≡ true = ground arith in
    let there : (d.ip == 0xff00) ≡ true = ground (arith, k.ip) in
    (
      d,
      rw (fits, there) refl,
      record {
        ip = k.ip;
        sc = boot-sc 256 cpu₀;
        sector = λ i h. ground (arith, k.ram (0xff00 + i));
        below = λ i h. ground (arith, k.ram i);
        disk = λ i h. ap (λ f. f i) k.mem ∙ ground arith;
        valid = k.valid;
      },
    )
