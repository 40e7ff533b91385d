-- ===== src/Isa/State.antt =====
-- What a program sees of the CPU, and the arithmetic of its instructions, with no reference to the
-- microcode: the hidden registers X, Y, MAR, IR and SC are forgotten.
use jaris.Base.{ℕ, ◌+◌, ◌-◌, ◌*◌, ◌/◌, ◌%◌, ◌^◌, ◌==◌, leb, if◌then◌else◌, ℤ}
use jaris.Cpu.State.{Cpu}

pub record Machine : Type 0 where
  pub a : ℕ
  pub b : ℕ
  pub sp : ℕ
  pub ip : ℕ
  pub sec : ℕ
  pub ndx : ℕ
  pub flags : ℕ
  pub ram : ℕ → ℕ
  pub mem : ℕ → ℕ
  pub key_fifo : ℕ → ℕ
  pub key_fifo_i : ℤ
  pub gpua : ℕ
  pub attribute_ram : ℕ → ℕ
  pub pattern_ram : ℕ → ℕ

abbrev pub machine : Cpu → Machine
machine cpu = record {
  a = cpu.a;
  b = cpu.b;
  sp = cpu.sp;
  ip = cpu.ip;
  sec = cpu.sec;
  ndx = cpu.ndx;
  flags = cpu.fr;
  ram = cpu.ram;
  mem = cpu.mem;
  key_fifo = cpu.key_fifo;
  key_fifo_i = cpu.key_fifo_i;
  gpua = cpu.gpua;
  attribute_ram = cpu.attribute_ram;
  pattern_ram = cpu.pattern_ram;
}

-- Sixteen-bit sums.
abbrev pub plus : ℕ → ℕ → ℕ
plus x y = (x + y) % 2 ^ 16

-- The little-endian word of the aligned pair of bytes that holds address `p`.
unfoldable pub word_at : (ℕ → ℕ) → ℕ → ℕ
word_at ram p = 256 * ram (p / 2 * 2 + 1) + ram (p / 2 * 2)

unfoldable pub with_word : (ℕ → ℕ) → ℕ → ℕ → ℕ → ℕ
with_word ram p v j =
    if p / 2 * 2 == j then v % 256 else if p / 2 * 2 + 1 == j then v / 256 else ram j

unfoldable pub with_byte : (ℕ → ℕ) → ℕ → ℕ → ℕ → ℕ
with_byte array p v j = if p == j then v % 256 else array j

-- Zero in bit 0, sign in bit 1, carry in bit 2.
unfoldable pub flags_of : ℕ → ℕ → ℕ
flags_of result carry =
    (if result == 0 then 1 else 0) + (if leb (2 ^ 15) result then 2 else 0) + 4 * carry

-- The flags after a sum whose true value is `n`.
abbrev pub sum_flags : ℕ → ℕ
sum_flags n = flags_of (n % 2 ^ 16) (n / 2 ^ 16)

-- Writing through GPUA: to the pattern RAM if its top bit is set, else to the attribute RAM.
abbrev pub draw : ℕ → ℕ → Machine → Machine
draw at v m = record m {
  gpua = at;
  pattern_ram = if leb (2 ^ 15) at then with_byte m.pattern_ram (at - 2 ^ 15) v else m.pattern_ram;
  attribute_ram = if leb (2 ^ 15) at then m.attribute_ram else with_byte m.attribute_ram at v;
}
