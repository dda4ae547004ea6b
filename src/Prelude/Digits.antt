-- ===== src/Prelude/Digits.antt =====
-- The binary digits of a number, and what `|`, `!`, `<<` and `trailing_ones` do to them.
use Prim.Native.Nat.{ℕ, zero, suc, ◌-◌, ◌*◌, ◌/◌, ◌%◌, ◌^◌, ◌<◌, min, max, bit_and, bit_or}
use mathlib.Core.Path.{◌≡◌, refl, ◌∙◌}
use mathlib.Core.Logic.{◌≢◌, inl, inr}
use mathlib.Core.Bool.{true, false}
use native.Mathlib.Nat.{pow-suc, pow-le-pow_right}
use native.Mathlib.Omega.{arith}
use rcore_os.Prelude.Tests.{◌==◌, if◌then◌else◌, Bool-cases}
use rcore_os.Prelude.Bits.{bit_and_half, bit_or_half, bit_and-zero, pow-pos, mod_double}

-- The binary digit of weight 2^q.
abbrev pub bit : ℕ → ℕ → ℕ
bit x zero = x % 2
bit x (suc q) = bit (x / 2) q

pub bit-lt_two : (x q : ℕ) → bit x q < 2
bit-lt_two x zero = omega arith
bit-lt_two x (suc q) = bit-lt_two (x / 2) q

pub bit-bit_or : (q a b : ℕ) → bit (bit_or a b) q ≡ max (bit a q) (bit b q)
bit-bit_or zero a b = omega (arith, bit_or_half a b)
bit-bit_or (suc q) a b =
    let half : bit_or a b / 2 ≡ bit_or (a / 2) (b / 2) = omega (arith, bit_or_half a b) in
    rw half (bit-bit_or q (a / 2) (b / 2))

pub bit-bit_and : (q a b : ℕ) → bit (bit_and a b) q ≡ min (bit a q) (bit b q)
bit-bit_and zero a b = omega (arith, bit_and_half a b)
bit-bit_and (suc q) a b =
    let half : bit_and a b / 2 ≡ bit_and (a / 2) (b / 2) = omega (arith, bit_and_half a b) in
    rw half (bit-bit_and q (a / 2) (b / 2))

pub bit-zero : (q : ℕ) → bit 0 q ≡ 0
bit-zero zero = refl
bit-zero (suc q) = bit-zero q

pub bit-pow : (p q : ℕ) → bit (2 ^ p) q ≡ (if p == q then 1 else 0)
bit-pow zero zero = refl
bit-pow zero (suc q) = ground (arith, bit-zero q)
bit-pow (suc p) zero = grind (arith, pow-suc 2 p)
bit-pow (suc p) (suc q) =
    let half : 2 ^ suc p / 2 ≡ 2 ^ p = omega (arith, pow-suc 2 p) in
    rw half (bit-pow p q ∙ ground arith)

-- The complement of `x` in `k` binary digits.
pub bit-complement : (k q x : ℕ) → q < k → x < 2 ^ k → bit (2 ^ k - 1 - x) q ≡ 1 - bit x q
bit-complement zero q x h s = absurd (omega arith)
bit-complement (suc k) zero x h s = omega (arith, pow-suc 2 k)
bit-complement (suc k) (suc q) x h s =
    let half : (2 ^ suc k - 1 - x) / 2 ≡ 2 ^ k - 1 - x / 2 = omega (arith, pow-suc 2 k) in
    rw half (bit-complement k q (x / 2) (omega arith) (omega (arith, pow-suc 2 k)))

-- `trailing_ones` of a number of `n` binary digits.
unfoldable pub trailing_ones : ℕ → ℕ → ℕ
trailing_ones zero x = 0
trailing_ones (suc n) x = elim (x % 2 == 1) [ true ↦ suc (trailing_ones n (x / 2)) | false ↦ 0 ]

abbrev pub LowestZero : ℕ → ℕ → ℕ → Type 0
LowestZero n x t = (t < n) × (bit x t ≡ 0) × ((q : ℕ) → q < t → bit x q ≡ 1)

ones_below :
    (x t : ℕ)
    → x % 2 ≡ 1
    → ((q : ℕ) → q < t → bit (x / 2) q ≡ 1)
    → (q : ℕ) → q < suc t
    → bit x q ≡ 1
ones_below x t odd h zero p = odd
ones_below x t odd h (suc q) p = h q (omega arith)

-- Of a number that is not all ones, `trailing_ones` is the weight of the lowest zero.
pub trailing_ones-LowestZero :
    (n x : ℕ) → x < 2 ^ n → x ≢ 2 ^ n - 1 → LowestZero n x (trailing_ones n x)
unfolding trailing_ones
trailing_ones-LowestZero zero x h ne = absurd (ne (omega arith))
trailing_ones-LowestZero (suc n) x h ne = elim (Bool-cases (x % 2 == 1)) [
  | inl odd ↦
      let one : x % 2 ≡ 1 = ground arith in
      let (lt, clear, ones) =
        trailing_ones-LowestZero n (x / 2) (omega (arith, pow-suc 2 n))
          (λ e. ne (omega (arith, pow-suc 2 n, pow-pos n))) in
      rw (odd, trailing_ones) (omega arith, clear, ones_below x (trailing_ones n (x / 2)) one ones)
  | inr even ↦ rw (even, trailing_ones) (omega arith, ground arith, λ q p. absurd (omega arith))
]

-- Cutting a number to `k` binary digits keeps those digits.
pub bit-mod : (k q v : ℕ) → q < k → bit (v % 2 ^ k) q ≡ bit v q
bit-mod zero q v h = absurd (omega arith)
bit-mod (suc k) zero v h =
    let double : 2 ^ suc k ≡ 2 * 2 ^ k = omega (arith, pow-suc 2 k) in
    rw double (omega (arith, mod_double v (2 ^ k) (pow-pos k)))
bit-mod (suc k) (suc q) v h =
    let double : 2 ^ suc k ≡ 2 * 2 ^ k = omega (arith, pow-suc 2 k) in
    let half : v % (2 * 2 ^ k) / 2 ≡ v / 2 % 2 ^ k =
      omega (arith, mod_double v (2 ^ k) (pow-pos k)) in
    rw (double, half) (bit-mod k q (v / 2) (omega arith))

-- All ones.
pub bit-ones : (k q : ℕ) → q < k → bit (2 ^ k - 1) q ≡ 1
bit-ones k q h =
    let top : bit (2 ^ k - 1 - 0) q ≡ 1 - bit 0 q = bit-complement k q 0 h (pow-pos k) in
    let whole : 2 ^ k - 1 - 0 ≡ 2 ^ k - 1 = omega arith in rw whole at top ∙ rw (bit-zero q) refl

pub pow-lt-pow : (p k : ℕ) → p < k → 2 ^ p < 2 ^ k
pow-lt-pow p k h =
    omega
      (arith, pow-le-pow_right {n = 2} (omega arith) {i = suc p} {j = k} h, pow-suc 2 p, pow-pos p)

pub bit_and-pow : (p x : ℕ) → bit_and x (2 ^ p) ≡ bit x p * 2 ^ p
bit_and-pow zero x = omega (arith, bit_and_half x 1, bit_and-zero (x / 2))
bit_and-pow (suc p) x =
    let half : 2 ^ suc p / 2 ≡ 2 ^ p = omega (arith, pow-suc 2 p) in
    let even : 2 ^ suc p % 2 ≡ 0 = omega (arith, pow-suc 2 p) in
    rw (bit_and_half x (2 ^ suc p), half, even, bit_and-pow p (x / 2)) (grind (arith, pow-suc 2 p))

-- `x & (1 << p)` is not zero exactly where the digit `p` is one.
pub bit_and-pow_pos :
    (p x : ℕ) → (bit x p ≡ 0 → bit_and x (2 ^ p) ≡ 0) × (bit x p ≡ 1 → 0 < bit_and x (2 ^ p))
bit_and-pow_pos p x = (
  λ e. rw (bit_and-pow p x, e) (omega arith),
  λ e. rw (bit_and-pow p x, e) (omega (arith, pow-pos p)),
)
