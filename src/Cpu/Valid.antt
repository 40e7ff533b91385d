-- ===== src/Cpu/Valid.antt =====
-- The widths of the registers, and that setting a register keeps them.
use jaris.Base.{ℕ, ◌^◌, ◌<◌, arith, ◌==◌, ◌>>>◌, low_bits, when-keeps, not}
use jaris.Cpu.State.{Cpu, update}
use jaris.Cpu.Tick.{
  put_fr, put_sp, put_ip, put_a, put_b, put_mar, put_ram, put_x, put_y, put_ir, put_sc,
}
use jaris.Cpu.Tick.{put_sec, put_ndx, put_mem, put_gpua, gpu_write}

unfoldable pub AllBytes : (ℕ → ℕ) → Type 0
AllBytes array = (i : ℕ) → array i < 256

pub record IsValid (cpu : Cpu) : Type 0 where
  pub a_lt : cpu.a < 2 ^ 16
  pub b_lt : cpu.b < 2 ^ 16
  pub sp_lt : cpu.sp < 2 ^ 16
  pub ip_lt : cpu.ip < 2 ^ 16
  pub x_lt : cpu.x < 2 ^ 16
  pub y_lt : cpu.y < 2 ^ 16
  pub mar_lt : cpu.mar < 2 ^ 16
  pub sec_lt : cpu.sec < 2 ^ 12
  pub ndx_lt : cpu.ndx < 2 ^ 8
  pub fr_lt : cpu.fr < 8
  pub sc_lt : cpu.sc < 16
  pub ir_lt : cpu.ir < 2 ^ 8
  pub gpua_lt : cpu.gpua < 2 ^ 16
  pub ram_bytes : AllBytes cpu.ram
  pub mem_bytes : AllBytes cpu.mem
  pub key_bytes : AllBytes cpu.key_fifo
  pub attribute_bytes : AllBytes cpu.attribute_ram
  pub pattern_bytes : AllBytes cpu.pattern_ram

pub update-AllBytes :
    (array : ℕ → ℕ) (at v : ℕ) → v < 256 → AllBytes array → AllBytes (update array at v)
unfolding AllBytes
update-AllBytes array at v h all = λ i. ground (arith, all i)

pub put_fr-IsValid : (v : ℕ) (cpu : Cpu) → v < 8 → IsValid cpu → IsValid (put_fr v cpu)
put_fr-IsValid v cpu e h = assumption

pub put_sp-IsValid : (v : ℕ) (cpu : Cpu) → v < 2 ^ 16 → IsValid cpu → IsValid (put_sp v cpu)
put_sp-IsValid v cpu e h = assumption

pub put_ip-IsValid : (v : ℕ) (cpu : Cpu) → v < 2 ^ 16 → IsValid cpu → IsValid (put_ip v cpu)
put_ip-IsValid v cpu e h = assumption

pub put_a-IsValid : (v : ℕ) (cpu : Cpu) → v < 2 ^ 16 → IsValid cpu → IsValid (put_a v cpu)
put_a-IsValid v cpu e h = assumption

pub put_b-IsValid : (v : ℕ) (cpu : Cpu) → v < 2 ^ 16 → IsValid cpu → IsValid (put_b v cpu)
put_b-IsValid v cpu e h = assumption

pub put_mar-IsValid : (v : ℕ) (cpu : Cpu) → v < 2 ^ 16 → IsValid cpu → IsValid (put_mar v cpu)
put_mar-IsValid v cpu e h = assumption

pub put_x-IsValid : (v : ℕ) (cpu : Cpu) → v < 2 ^ 16 → IsValid cpu → IsValid (put_x v cpu)
put_x-IsValid v cpu e h = assumption

pub put_y-IsValid : (v : ℕ) (cpu : Cpu) → v < 2 ^ 16 → IsValid cpu → IsValid (put_y v cpu)
put_y-IsValid v cpu e h = assumption

pub put_ir-IsValid : (v : ℕ) (cpu : Cpu) → v < 2 ^ 8 → IsValid cpu → IsValid (put_ir v cpu)
put_ir-IsValid v cpu e h = assumption

pub put_sc-IsValid : (v : ℕ) (cpu : Cpu) → v < 16 → IsValid cpu → IsValid (put_sc v cpu)
put_sc-IsValid v cpu e h = assumption

pub put_sec-IsValid : (v : ℕ) (cpu : Cpu) → v < 2 ^ 12 → IsValid cpu → IsValid (put_sec v cpu)
put_sec-IsValid v cpu e h = assumption

pub put_ndx-IsValid : (v : ℕ) (cpu : Cpu) → v < 2 ^ 8 → IsValid cpu → IsValid (put_ndx v cpu)
put_ndx-IsValid v cpu e h = assumption

pub put_gpua-IsValid : (v : ℕ) (cpu : Cpu) → v < 2 ^ 16 → IsValid cpu → IsValid (put_gpua v cpu)
put_gpua-IsValid v cpu e h = assumption

pub put_ram-IsValid : (v : ℕ → ℕ) (cpu : Cpu) → AllBytes v → IsValid cpu → IsValid (put_ram v cpu)
put_ram-IsValid v cpu e h = assumption

pub put_mem-IsValid : (v : ℕ → ℕ) (cpu : Cpu) → AllBytes v → IsValid cpu → IsValid (put_mem v cpu)
put_mem-IsValid v cpu e h = assumption

pub gpu_write-IsValid : (bus : ℕ) (cpu : Cpu) → IsValid cpu → IsValid (gpu_write bus cpu)
gpu_write-IsValid bus cpu h =
    let written = λ (array : ℕ → ℕ). update array (low_bits cpu.gpua 15) (low_bits bus 8) in
    let keeps = λ (array : ℕ → ℕ).
      update-AllBytes array (low_bits cpu.gpua 15) (low_bits bus 8) (omega arith) in
    let pattern = low_bits (cpu.gpua >>> 15) 1 == 1 in
    assumption (
      when-keeps AllBytes pattern written cpu.pattern_ram h.pattern_bytes (keeps _),
      when-keeps AllBytes (not pattern) written cpu.attribute_ram h.attribute_bytes (keeps _),
    )

pub byte-lt-word : {v : ℕ} → v < 2 ^ 8 → v < 2 ^ 16
byte-lt-word h = omega arith
