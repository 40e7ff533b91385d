-- ===== src/Cpu/State.antt =====
-- src/runtime.h `cpu_t`, and the word accesses of src/runtime.c.
-- An array is a function from its index; the fields that only the window uses are left out.
use jaris.Base.{ℕ, ◌+◌, ◌%◌, Option, none, some, if◌then◌else◌, ◌==◌, bit_or}
use jaris.Base.{◌>>>◌, ◌<<<◌, low_bits, ℤ}

pub record Cpu : Type 0 where
  pub a : ℕ
  pub b : ℕ
  pub sp : ℕ
  pub ip : ℕ
  pub x : ℕ
  pub y : ℕ
  pub mar : ℕ
  pub sec : ℕ
  pub ndx : ℕ
  pub fr : ℕ
  pub sc : ℕ
  pub ir : ℕ
  pub ram : ℕ → ℕ
  pub mem : ℕ → ℕ
  pub key_fifo : ℕ → ℕ
  pub key_fifo_i : ℤ
  pub gpua : ℕ
  pub attribute_ram : ℕ → ℕ
  pub pattern_ram : ℕ → ℕ
  pub ticks : ℕ

abbrev pub update : (ℕ → ℕ) → ℕ → ℕ → ℕ → ℕ
update array at v = λ j. if at == j then v else array j

-- `none` is the failed assertion on an odd address.
pub cpu_read16 : Cpu → ℕ → Option ℕ
cpu_read16 cpu at =
    if at % 2 == 0 then some (bit_or (cpu.ram at) (cpu.ram (at + 1) <<< 8)) else none

pub cpu_write16 : Cpu → ℕ → ℕ → Option Cpu
cpu_write16 cpu at what =
    if at % 2 == 0
    then some (record cpu {
      ram = update (update cpu.ram at (low_bits what 8)) (at + 1) (low_bits (what >>> 8) 8);
    })
    else none
