-- ===== src/Base/Bits.antt =====
-- `&` with a mask of low bits and `|` of disjoint fields as arithmetic, at every width.
use Prim.Native.Nat.{
  ℕ, zero, suc, ◌+◌, ◌-◌, ◌*◌, ◌/◌, ◌%◌, ◌^◌, ◌≤◌, ◌<◌, min, max, bit_and, bit_or, digits, bitwise,
  bit_and-bitwise, bit_or-bitwise,
}
use mathlib.Core.Path.{◌≡◌, refl, ap}
use native.Mathlib.Nat.{le_refl, pow-suc, one-le-pow, div-div-eq-div-mul, mul_comm}
use native.Mathlib.Omega.{arith}

-- More fuel than digits changes nothing.
module _ (z : ℕ → ℕ) (f : ℕ → ℕ → ℕ) where
  digits_enough : (k l a b : ℕ) → a ≤ k → a ≤ l → digits z f k a b ≡ digits z f l a b
  digits_enough zero zero a b p q = refl
  digits_enough zero (suc l) (suc a) b p q = absurd (omega arith)
  digits_enough (suc k) zero (suc a) b p q = absurd (omega arith)
  digits_enough (suc k) (suc l) (suc a) b p q =
      let again = digits_enough k l (suc a / 2) (b / 2) (omega arith) (omega arith) in rw again
  digits_enough zero (suc l) zero b p q = refl
  digits_enough (suc k) zero zero b p q = refl
  digits_enough (suc k) (suc l) zero b p q = refl

  bitwise_digit :
      (a b : ℕ)
      → f (suc a % 2) (b % 2) + 2 * bitwise z f (suc a / 2) (b / 2) ≡ bitwise z f (suc a) b
  bitwise_digit a b =
      let enough = digits_enough a (suc a / 2) (suc a / 2) (b / 2) (omega arith) (le_refl _) in
      omega (arith, enough)

pub bit_and_digit : (a b : ℕ) → bit_and a b ≡ bit_and (a / 2) (b / 2) * 2 + min (a % 2) (b % 2)
bit_and_digit zero b = simp bit_and-bitwise (omega arith)
bit_and_digit (suc a) b =
    simp bit_and-bitwise (let low = bitwise_digit (λ y. 0) min a b in omega (arith, low))

pub bit_or_digit : (a b : ℕ) → bit_or a b ≡ bit_or (a / 2) (b / 2) * 2 + max (a % 2) (b % 2)
bit_or_digit zero b = simp bit_or-bitwise (omega arith)
bit_or_digit (suc a) b =
    simp bit_or-bitwise (let low = bitwise_digit (λ y. y) max a b in omega (arith, low))

bit_and-zero_fuel : (k a : ℕ) → a ≤ k → bit_and a 0 ≡ 0
bit_and-zero_fuel k zero h = refl
bit_and-zero_fuel zero (suc a) h = absurd (omega arith)
bit_and-zero_fuel (suc k) (suc a) h =
    omega (arith, bit_and_digit (suc a) 0, bit_and-zero_fuel k (suc a / 2) (omega arith))

pub zero-bit_or : (b : ℕ) → bit_or 0 b ≡ b
zero-bit_or b = simp bit_or-bitwise

-- `lo | hi << k` is a sum when `lo` fits `k` bits.
pub bit_or_low_high : (k lo hi : ℕ) → lo < 2 ^ k → bit_or lo (hi * 2 ^ k) ≡ lo + hi * 2 ^ k
bit_or_low_high zero lo hi h = ground (arith, zero-bit_or (hi * 2 ^ 0))
bit_or_low_high (suc k) lo hi h = ground (
  arith,
  bit_or_digit lo (hi * 2 ^ suc k),
  ap (λ (t : ℕ). hi * t) (pow-suc 2 k),
  pow-suc 2 k,
  bit_or_low_high k (lo / 2) hi (omega arith),
)

-- `x & (1<<k - 1)` is the remainder by `2 ^ k`.
and_mask_low_high : (k lo hi : ℕ) → lo < 2 ^ k → bit_and (lo + hi * 2 ^ k) (2 ^ k - 1) ≡ lo
and_mask_low_high zero lo hi h = omega (arith, bit_and-zero_fuel (lo + hi * 1) _ (le_refl _))
and_mask_low_high (suc k) lo hi h = ground (
  arith,
  bit_and_digit (lo + hi * 2 ^ suc k) (2 ^ suc k - 1),
  ap (λ (t : ℕ). hi * t) (pow-suc 2 k),
  pow-suc 2 k,
  one-le-pow k 2,
  and_mask_low_high k (lo / 2) hi (omega arith),
)

pub bit_and_low_mask : (k x : ℕ) → bit_and x (2 ^ k - 1) ≡ x % 2 ^ k
bit_and_low_mask k x = ground (arith, one-le-pow k 2, and_mask_low_high k (x % 2 ^ k) (x / 2 ^ k))

-- The masks of the codecs, at any number.
pub and_0f : (x : ℕ) → bit_and x 0x0f ≡ x % 16
and_0f = bit_and_low_mask 4

pub and_7f : (x : ℕ) → bit_and x 0x7f ≡ x % 128
and_7f = bit_and_low_mask 7

-- A test of one bit.
pub bit_and_bit : (k x : ℕ) → bit_and x (2 ^ k) ≡ x / 2 ^ k % 2 * 2 ^ k
bit_and_bit zero x = omega (arith, bit_and_low_mask 1 x)
bit_and_bit (suc k) x = rw (pow-suc 2 k) (
    ground (
      arith,
      bit_and_digit x (2 ^ k * 2),
      mul_comm (2 ^ k) 2,
      div-div-eq-div-mul x 2 (2 ^ k),
      ap (λ (t : ℕ). x / t) (mul_comm (2 ^ k) 2),
      bit_and_bit k (x / 2),
    ))

pub and_80 : (x : ℕ) → x < 256 → bit_and x 0x80 ≡ x / 128 * 128
and_80 x h = omega (arith, bit_and_bit 7 x)

bit_or-zero_fuel : (k a : ℕ) → a ≤ k → bit_or a 0 ≡ a
bit_or-zero_fuel k zero h = zero-bit_or 0
bit_or-zero_fuel zero (suc a) h = absurd (omega arith)
bit_or-zero_fuel (suc k) (suc a) h =
    omega (arith, bit_or_digit (suc a) 0, bit_or-zero_fuel k (suc a / 2) (omega arith))

-- `hi << k | lo`, the other way round.
pub bit_or_high_low : (k hi lo : ℕ) → lo < 2 ^ k → bit_or (hi * 2 ^ k) lo ≡ hi * 2 ^ k + lo
bit_or_high_low zero hi lo h = ground (arith, bit_or-zero_fuel (hi * 2 ^ 0) _ (le_refl _))
bit_or_high_low (suc k) hi lo h = ground (
  arith,
  bit_or_digit (hi * 2 ^ suc k) lo,
  ap (λ (t : ℕ). hi * t) (pow-suc 2 k),
  pow-suc 2 k,
  bit_or_high_low k hi (lo / 2) (omega arith),
)
