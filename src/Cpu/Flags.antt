-- ===== src/Cpu/Flags.antt =====
-- The adder, the ALU and the flag register as arithmetic, and their widths.
use jaris.Base.{ℕ, ◌+◌, ◌*◌, ◌/◌, ◌%◌, ◌^◌, ◌<◌, ◌≡◌, Bool, true, false, arith, ◌==◌}
use jaris.Base.{
  bit_or, bit_and, bit_or-add, bit_or_comm, bit_xor_ones, bit_and-le, ◌>>>◌, ◌<<<◌, u8, u16,
}
use jaris.Microcode.{MicrocodeFlag, check_microcode}
use jaris.Cpu.Tick.{adder, alu, zero_negative, bool_int}

pub zero_negative_lem :
    (bus : ℕ) → bus < 2 ^ 16 → zero_negative bus ≡ bool_int (bus == 0) + 2 * (bus / 2 ^ 15)
zero_negative_lem bus h = ground (
  arith,
  bit_or_comm (bool_int (bus == 0)) (bus / 2 ^ 15 * 2),
  bit_or-add 1 (bus / 2 ^ 15) (bool_int (bus == 0)),
)

-- The flag register gets the carry in bit 2 over what `zero_negative` gives.
pub flags_lem :
    (bus carry : ℕ)
    → bus < 2 ^ 16
    → carry < 2
    → u8 (bit_or (zero_negative bus) (carry <<< 2))
      ≡ bool_int (bus == 0) + 2 * (bus / 2 ^ 15) + 4 * carry
flags_lem bus carry h k = ground (
  arith,
  zero_negative_lem bus h,
  bit_or_comm (zero_negative bus) (carry * 4),
  bit_or-add 2 carry (zero_negative bus),
)

-- What the adder gives, for the operand `result` that reaches it.
adder_sum :
    (result y : ℕ)
    → result < 2 ^ 16
    → y < 2 ^ 16
    → (u16 (result + y) < 2 ^ 16)
      × (u8 (bit_or (zero_negative (u16 (result + y))) ((result + y) >>> 16 <<< 2)) < 8)
adder_sum result y hr hy = ground (arith, flags_lem (u16 (result + y)) ((result + y) / 2 ^ 16))

pub adder-lt :
    (sub carry_in : Bool) (x y : ℕ)
    → x < 2 ^ 16
    → y < 2 ^ 16
    → ((adder sub carry_in x y).0 < 2 ^ 16) × ((adder sub carry_in x y).1 < 8)
unfolding adder
adder-lt true true x y hx hy = adder_sum _ y (omega arith) hy
adder-lt true false x y hx hy = adder_sum _ y (omega (arith, bit_xor_ones 16 x hx)) hy
adder-lt false true x y hx hy = adder_sum _ y (omega arith) hy
adder-lt false false x y hx hy = adder_sum x y hx hy

-- The ALU gives a word and three flags.
pub alu-lt :
    (mc x y : ℕ) → x < 2 ^ 16 → y < 2 ^ 16 → ((alu mc x y).0 < 2 ^ 16) × ((alu mc x y).1 < 8)
unfolding alu
alu-lt mc x y hx hy = ground (
  arith,
  bit_and-le x y,
  zero_negative_lem (bit_and x y),
  flags_lem (x / 2) (x % 2),
  adder-lt (check_microcode mc MicrocodeFlag.alu_sub) (check_microcode mc MicrocodeFlag.ci) x y,
)
