-- ===== src/Isa/Bridge.antt =====
-- The expressions of `tick`, with their shifts and masks, as the arithmetic of the specification.
use mathlib.Core.Path.{fun_ext}
use jaris.Base.{ℕ, suc, ◌+◌, ◌-◌, ◌*◌, ◌/◌, ◌%◌, ◌^◌, ◌<◌, ◌≡◌, refl, arith, true, false, ◌==◌, leb}
use jaris.Base.{subst, sym, when, not, if◌then◌else◌, bit_or, bit_or-add, bit_or_comm, bit_xor_ones}
use jaris.Base.{◌>>>◌, ◌<<<◌, low_bits, u8, u16}
use jaris.Cpu.State.{update}
use jaris.Cpu.Tick.{adder, zero_negative}
use jaris.Cpu.Flags.{flags_lem, zero_negative_lem}
use jaris.Cpu.Valid.{AllBytes}
use jaris.Isa.State.{word_at, with_word, with_byte, flags_of, sum_flags}

pub flags_of_lem :
    (bus carry : ℕ)
    → bus < 2 ^ 16
    → carry < 2
    → u8 (bit_or (zero_negative bus) (carry <<< 2)) ≡ flags_of bus carry
unfolding flags_of
flags_of_lem bus carry h k = ground (arith, flags_lem bus carry h k)

pub flags_of_zero : (bus : ℕ) → bus < 2 ^ 16 → u8 (zero_negative bus) ≡ flags_of bus 0
unfolding flags_of
flags_of_zero bus h = ground (arith, zero_negative_lem bus h)

pub shr_flags :
    (x : ℕ)
    → x < 2 ^ 16
    → u8 (bit_or (zero_negative (x >>> 1)) (low_bits x 1 <<< 2)) ≡ flags_of (x / 2) (x % 2)
shr_flags x h = flags_of_lem (x / 2) (x % 2) (omega arith) (omega arith)

-- The sum that leaves the adder, for the operand that reaches it.
abbrev Sum : ℕ × ℕ → ℕ → Type 0
Sum out n = (out.0 ≡ n % 2 ^ 16) × (out.1 ≡ sum_flags n)

added :
    (x y : ℕ)
    → x < 2 ^ 16
    → y < 2 ^ 16
    → u8 (bit_or (zero_negative (u16 (x + y))) ((x + y) >>> 16 <<< 2)) ≡ sum_flags (x + y)
added x y hx hy = flags_of_lem (u16 (x + y)) ((x + y) / 2 ^ 16) (omega arith) (omega arith)

pub adder_plain : (x y : ℕ) → x < 2 ^ 16 → y < 2 ^ 16 → Sum (adder false false x y) (x + y)
unfolding adder
adder_plain x y hx hy = (refl, added x y hx hy)

pub adder_inc : (y : ℕ) → y < 2 ^ 16 → Sum (adder false true 0 y) (1 + y)
unfolding adder
adder_inc y h = (refl, added 1 y (omega arith) h)

pub adder_dec : (y : ℕ) → y < 2 ^ 16 → Sum (adder true false 0 y) (2 ^ 16 - 1 + y)
unfolding adder
adder_dec y h = (refl, added (2 ^ 16 - 1) y (omega arith) h)

pub adder_sub :
    (x y : ℕ) → x < 2 ^ 16 → y < 2 ^ 16 → Sum (adder true true x y) ((2 ^ 16 - x) % 2 ^ 16 + y)
unfolding adder
adder_sub x y hx hy =
    let e : suc (2 ^ 16 - 1 - x) % 2 ^ 16 ≡ (2 ^ 16 - x) % 2 ^ 16 = omega arith in
    rw (bit_xor_ones 16 x hx, e) (refl, added ((2 ^ 16 - x) % 2 ^ 16) y (omega arith) hy)

module _ (ram : ℕ → ℕ) (bytes : AllBytes ram) where
  pub word_lem : (p : ℕ) → bit_or (ram (p / 2 * 2 + 1) <<< 8) (ram (p / 2 * 2)) ≡ word_at ram p
  unfolding word_at AllBytes
  word_lem p = omega (arith, bit_or-add 8 (ram (p / 2 * 2 + 1)) (ram (p / 2 * 2)) (bytes _))

  pub word_at-lt : (p : ℕ) → word_at ram p < 2 ^ 16
  unfolding word_at AllBytes
  word_at-lt p = omega (arith, bytes (p / 2 * 2 + 1), bytes (p / 2 * 2))

  pub with_word-AllBytes : (p v : ℕ) → v < 2 ^ 16 → AllBytes (with_word ram p v)
  unfolding with_word AllBytes
  with_word-AllBytes p v h = λ j. ground (arith, bytes j)

pub with_word_lem :
    (ram : ℕ → ℕ) (p v : ℕ)
    → v < 2 ^ 16
    → update (update ram (p / 2 * 2 + 1) (u8 (v >>> 8))) (p / 2 * 2) (low_bits v 8)
      ≡ with_word ram p v
unfolding with_word
with_word_lem ram p v h = fun_ext λ j. ground arith

pub with_byte_lem : (array : ℕ → ℕ) (p v : ℕ) → update array p (v % 2 ^ 8) ≡ with_byte array p v
unfolding with_byte
with_byte_lem array p v = fun_ext λ j. ground arith

pub mem_index_lem : (sec ndx : ℕ) → ndx < 2 ^ 8 → bit_or ndx (sec <<< 8) ≡ sec * 256 + ndx
mem_index_lem sec ndx h = omega (arith, bit_or_comm ndx (sec * 256), bit_or-add 8 sec ndx h)

-- The high byte of A is replaced.
pub high_byte_lem : (v x : ℕ) → u16 (bit_or (v <<< 8) (low_bits x 8)) ≡ v % 256 * 256 + x % 256
high_byte_lem v x = omega (arith, bit_or-add 8 v (x % 256) (omega arith))

pub sp_down : (sp : ℕ) → u16 (sp + 2 ^ 16 - 2) ≡ (sp + (2 ^ 16 - 2)) % 2 ^ 16
sp_down sp = omega arith

pub sp_back : (sp : ℕ) → sp < 2 ^ 16 → u16 (u16 (sp + 2) + 2 ^ 16 - 2) ≡ sp
sp_back sp h = omega arith

-- A word read from a RAM to which a word has just been written.
pub word_after_lem :
    (ram : ℕ → ℕ) (at v p : ℕ)
    → AllBytes ram
    → v < 2 ^ 16
    → bit_or
        (update
            (update ram (at / 2 * 2 + 1) (u8 (v >>> 8)))
            (at / 2 * 2)
            (low_bits v 8)
            (p / 2 * 2 + 1)
          <<< 8)
        (update
          (update ram (at / 2 * 2 + 1) (u8 (v >>> 8)))
          (at / 2 * 2)
          (low_bits v 8)
          (p / 2 * 2))
      ≡ word_at (with_word ram at v) p
word_after_lem ram at v p bytes h =
    subst
      (λ written.
        bit_or (written (p / 2 * 2 + 1) <<< 8) (written (p / 2 * 2))
        ≡ word_at (with_word ram at v) p)
      (sym (with_word_lem ram at v h))
      (word_lem (with_word ram at v) (with_word-AllBytes ram bytes at v h) p)

pub plain_flags : (x : ℕ) → x < 2 ^ 16 → sum_flags (x + 0) ≡ flags_of x 0
unfolding flags_of
plain_flags x h = ground arith

pub byte_mod : {v : ℕ} → v < 256 → v % 2 ^ 8 ≡ v
byte_mod h = omega arith

pub ndx_wraps : (ndx : ℕ) → (1 + ndx) % 2 ^ 16 % 2 ^ 8 ≡ (1 + ndx) % 256
ndx_wraps ndx = omega arith

-- The two halves of a write to the screen.
pub pattern_lem :
    (array : ℕ → ℕ) (at v : ℕ)
    → at < 2 ^ 16
    → when
        (low_bits (at >>> 15) 1 == 1)
        (λ (p : ℕ → ℕ). update p (low_bits at 15) (low_bits v 8))
        array
      ≡ (if leb (2 ^ 15) at then with_byte array (at - 2 ^ 15) v else array)
unfolding with_byte
pattern_lem array at v h = fun_ext λ j. ground arith

pub attribute_lem :
    (array : ℕ → ℕ) (at v : ℕ)
    → at < 2 ^ 16
    → when
        (not (low_bits (at >>> 15) 1 == 1))
        (λ (p : ℕ → ℕ). update p (low_bits at 15) (low_bits v 8))
        array
      ≡ (if leb (2 ^ 15) at then array else with_byte array at v)
unfolding with_byte
attribute_lem array at v h = fun_ext λ j. ground arith

pub flags_of-lt : (result carry : ℕ) → carry < 2 → flags_of result carry < 8
unfolding flags_of
flags_of-lt result carry h = ground arith
