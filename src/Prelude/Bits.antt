-- ===== src/Prelude/Bits.antt =====
-- `&` and `|` a binary digit at a time, and masks: `x & ((1 << k) - 1)` is `x % 2^k`.
use Prim.Native.Nat.{
  ℕ, zero, suc, ◌+◌, ◌-◌, ◌*◌, ◌/◌, ◌%◌, ◌^◌, ◌≤◌, ◌<◌, min, max, bit_and, bit_or, digits, bitwise,
  bit_and-bitwise, bit_or-bitwise,
}
use mathlib.Core.Path.{◌≡◌, refl, sym}
use native.Mathlib.Nat.{pow-suc}
use native.Mathlib.Omega.{arith}

-- An operation that joins two numbers digit by digit, and gives `rest b` when the first has run out.
module _ (rest : ℕ → ℕ) (join : ℕ → ℕ → ℕ) where
  -- Any count of rounds that the first number does not exceed gives the same.
  same_digits :
      (a b few many : ℕ) → a ≤ few → a ≤ many → digits rest join many a b ≡ digits rest join few a b
  same_digits zero b zero zero _ _ = refl
  same_digits zero b zero (suc many) _ _ = refl
  same_digits zero b (suc few) zero _ _ = refl
  same_digits zero b (suc few) (suc many) _ _ = refl
  same_digits (suc a) b zero many less _ = absurd (omega arith)
  same_digits (suc a) b (suc few) zero _ less = absurd (omega arith)
  same_digits (suc a) b (suc few) (suc many) less more =
      let halves = same_digits (suc a / 2) (b / 2) few many (omega arith) (omega arith) in
      omega (arith, halves)

  bitwise_half :
      (a b : ℕ)
      → bitwise rest join (suc a) b
        ≡ bitwise rest join (suc a / 2) (b / 2) * 2 + join (suc a % 2) (b % 2)
  bitwise_half a b =
      let halves = same_digits (suc a / 2) (b / 2) (suc a / 2) a (omega arith) (omega arith) in
      omega (arith, halves)

and_zero_left : (b : ℕ) → bit_and 0 b ≡ 0
and_zero_left b = bit_and-bitwise 0 b

or_zero_left : (b : ℕ) → bit_or 0 b ≡ b
or_zero_left b = bit_or-bitwise 0 b

-- The lowest digit, and the others.
pub bit_and_half : (a b : ℕ) → bit_and a b ≡ bit_and (a / 2) (b / 2) * 2 + min (a % 2) (b % 2)
bit_and_half zero b = omega (arith, and_zero_left b, and_zero_left (b / 2))
bit_and_half (suc a) b =
    rw (bit_and-bitwise (suc a) b, bit_and-bitwise (suc a / 2) (b / 2))
      (bitwise_half (λ b. 0) min a b)

pub bit_or_half : (a b : ℕ) → bit_or a b ≡ bit_or (a / 2) (b / 2) * 2 + max (a % 2) (b % 2)
bit_or_half zero b = omega (arith, or_zero_left b, or_zero_left (b / 2))
bit_or_half (suc a) b =
    rw (bit_or-bitwise (suc a) b, bit_or-bitwise (suc a / 2) (b / 2))
      (bitwise_half (λ b. b) max a b)

-- Splitting off the lowest binary digit of a remainder.
pub mod_double : (a m : ℕ) → 0 < m → a % (2 * m) ≡ (a / 2 % m) * 2 + a % 2
mod_double a m h = grind arith

pub pow-pos : (k : ℕ) → 0 < 2 ^ k
pow-pos zero = omega arith
pow-pos (suc k) = omega (arith, pow-suc 2 k, pow-pos k)

half_bounded : (n a : ℕ) → a ≤ n → bit_and a 0 ≡ 0
half_bounded n zero h = and_zero_left 0
half_bounded zero (suc a) h = absurd (omega arith)
half_bounded (suc n) (suc a) h =
    let less : bit_and (suc a / 2) 0 ≡ 0 = half_bounded n (suc a / 2) (omega arith) in
    omega (arith, bit_and_half (suc a) 0, less)

pub bit_and-zero : (a : ℕ) → bit_and a 0 ≡ 0
bit_and-zero a = half_bounded a a (omega arith)

mask_half : (a m : ℕ) → 0 < m → bit_and a (2 * m - 1) ≡ bit_and (a / 2) (m - 1) * 2 + a % 2
mask_half a m h =
    let half : (2 * m - 1) / 2 ≡ m - 1 = omega arith in
    let odd : (2 * m - 1) % 2 ≡ 1 = omega arith in
    rw (bit_and_half a (2 * m - 1), half, odd) (omega arith)

-- `a & ((1 << k) - 1)` keeps the low `k` bits.
pub bit_and_mask : (k a : ℕ) → bit_and a (2 ^ k - 1) ≡ a % 2 ^ k
bit_and_mask zero a = omega (arith, bit_and-zero a)
bit_and_mask (suc k) a =
    let double : 2 ^ suc k ≡ 2 * 2 ^ k = omega (arith, pow-suc 2 k) in
    rw (double, mask_half a (2 ^ k) (pow-pos k), bit_and_mask k (a / 2))
      (sym (mod_double a (2 ^ k) (pow-pos k)))

or_bounded : (n a : ℕ) → a ≤ n → bit_or a 0 ≡ a
or_bounded n zero h = or_zero_left 0
or_bounded zero (suc a) h = absurd (omega arith)
or_bounded (suc n) (suc a) h =
    let less : bit_or (suc a / 2) 0 ≡ suc a / 2 = or_bounded n (suc a / 2) (omega arith) in
    omega (arith, bit_or_half (suc a) 0, less)

pub or_zero_right : (a : ℕ) → bit_or a 0 ≡ a
or_zero_right a = or_bounded a a (omega arith)

times_double : (a m : ℕ) → a * (2 * m) ≡ 2 * (a * m)
times_double a m = grind arith

-- Where the low `k` bits of `a << k` are put: the sum.
pub bit_or_low : (k a b : ℕ) → b < 2 ^ k → bit_or (a * 2 ^ k) b ≡ a * 2 ^ k + b
bit_or_low zero a b h =
    let none : b ≡ 0 = omega arith in rw none (omega (arith, or_zero_right (a * 2 ^ 0)))
bit_or_low (suc k) a b h =
    let double : 2 ^ suc k ≡ 2 * 2 ^ k = omega (arith, pow-suc 2 k) in
    let whole : a * 2 ^ suc k ≡ 2 * (a * 2 ^ k) = rw double (times_double a (2 ^ k)) in
    let half : a * 2 ^ suc k / 2 ≡ a * 2 ^ k = omega (arith, whole) in
    let even : a * 2 ^ suc k % 2 ≡ 0 = omega (arith, whole) in
    let less : b / 2 < 2 ^ k = omega (arith, pow-suc 2 k, h) in
    omega (
      arith,
      rw (half, even) at (bit_or_half (a * 2 ^ suc k) b),
      bit_or_low k a (b / 2) less,
      whole,
    )
