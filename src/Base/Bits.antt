-- ===== src/Base/Bits.antt =====
-- C's shifts, masks and bit operations on unsigned words, as arithmetic.
mod Digits
use Digits.{zero-bit_and, bit_and_digit, zero-bit_or, bit_or_digit, bit_xor_digit}
use Prim.Native.Nat.{ℕ, zero, suc, ◌+◌, ◌-◌, ◌*◌, ◌/◌, ◌%◌, ◌^◌, ◌<◌, ◌≤◌, bit_and, bit_or, bit_xor}
use mathlib.Core.Path.{◌≡◌, refl, ap}
use native.Mathlib.Nat.{pow-suc}
use native.Mathlib.Omega.{arith}

-- `x >> k`, and `x & (2^k - 1)`.
infixl 75 ◌>>>◌ ◌<<<◌
abbrev pub ◌>>>◌ : ℕ → ℕ → ℕ
x >>> k = x / 2 ^ k

abbrev pub ◌<<<◌ : ℕ → ℕ → ℕ
x <<< k = x * 2 ^ k

abbrev pub low_bits : ℕ → ℕ → ℕ
low_bits x k = x % 2 ^ k

-- Storing into a `uint8_t` or a `uint16_t`.
abbrev pub u8 : ℕ → ℕ
u8 x = x % 2 ^ 8

abbrev pub u16 : ℕ → ℕ
u16 x = x % 2 ^ 16

double : (q k : ℕ) → q * 2 ^ suc k ≡ 2 * (q * 2 ^ k)
double q k = omega (arith, ap (λ (t : ℕ). q * t) (pow-suc 2 k))

or_zero : (n q : ℕ) → q < n → bit_or q 0 ≡ q
or_zero zero q h = absurd (omega arith)
or_zero (suc n) zero h = refl
or_zero (suc n) (suc q) h =
    omega (arith, bit_or_digit (suc q) 0, or_zero n (suc q / 2) (omega arith))

or_comm : (n a b : ℕ) → a < n → bit_or a b ≡ bit_or b a
or_comm zero a b h = absurd (omega arith)
or_comm (suc n) zero b h = omega (arith, or_zero (suc b) b (omega arith), zero-bit_or b)
or_comm (suc n) (suc a) b h = omega (
  arith,
  bit_or_digit (suc a) b,
  bit_or_digit b (suc a),
  or_comm n (suc a / 2) (b / 2) (omega arith),
)

pub bit_or_comm : (a b : ℕ) → bit_or a b ≡ bit_or b a
bit_or_comm a b = or_comm (suc a) a b (omega arith)

-- `(q << k) | r` is a sum when `r` fits `k` bits.
pub bit_or-add : (k q r : ℕ) → r < 2 ^ k → bit_or (q <<< k) r ≡ q * 2 ^ k + r
bit_or-add zero q r h = ground (arith, or_zero (suc q) q)
bit_or-add (suc k) q r h =
    ground (arith, bit_or_digit (q * 2 ^ suc k) r, double q k, pow-suc 2 k, bit_or-add k q (r / 2))

-- Flipping all the bits of a `k`-bit word.
pub bit_xor_ones : (k x : ℕ) → x < 2 ^ k → bit_xor x (2 ^ k - 1) ≡ 2 ^ k - 1 - x
bit_xor_ones zero x h = let e : x ≡ 0 = omega arith in rw e
bit_xor_ones (suc k) x h =
    ground (arith, bit_xor_digit x (2 ^ suc k - 1), pow-suc 2 k, bit_xor_ones k (x / 2))

and_le : (n a b : ℕ) → a < n → bit_and a b ≤ a
and_le zero a b h = absurd (omega arith)
and_le (suc n) zero b h = omega (arith, zero-bit_and b)
and_le (suc n) (suc a) b h =
    omega (arith, bit_and_digit (suc a) b, and_le n (suc a / 2) (b / 2) (omega arith))

pub bit_and-le : (a b : ℕ) → bit_and a b ≤ a
bit_and-le a b = and_le (suc a) a b (omega arith)
