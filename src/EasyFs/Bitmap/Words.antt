-- ===== src/EasyFs/Bitmap/Words.antt =====
-- What allocating and freeing a bit does to the bits of one block.
use rcore_os.Prelude.{
  ℕ, zero, suc, ◌+◌, ◌*◌, ◌/◌, ◌%◌, ◌^◌, ◌≤◌, ◌<◌, ◌≡◌, Option, none, some, if◌then◌else◌, ◌==◌,
  bit_or, arith, Bool-cases, inl, inr, dec_lt,
}
use rcore_os.Prelude.Digits.{
  trailing_ones, trailing_ones-LowestZero, LowestZero, bit, bit-bit_or, bit-pow, bit-mod, bit-ones,
  bit-lt_two,
}
use rcore_os.EasyFs.Disk.{Block, u64_at, set_u64, u64_at-lt, u64_at-set_u64}
use rcore_os.EasyFs.Bitmap.{u64_max, find_word, alloc_in}

-- The bit `n` of a block.
abbrev pub block_bit : Block → ℕ → ℕ
block_bit b n = bit (u64_at b (n / 64)) (n % 64)

pub data Found (n i : ℕ) (b : Block) : Option (ℕ × ℕ) → Type 0 where
  all_ones : ((j : ℕ) → i ≤ j → j < i + n → u64_at b j ≡ u64_max) → Found n i b none
  zero_at :
      (w p : ℕ)
      → i ≤ w
      → w < i + n
      → LowestZero 64 (u64_at b w) p
      → ((j : ℕ) → i ≤ j → j < w → u64_at b j ≡ u64_max)
      → Found n i b (some (w, p))

skip_one :
    (n i : ℕ) (b : Block) (r : Option (ℕ × ℕ))
    → u64_at b i ≡ u64_max
    → Found n (i + 1) b r
    → Found (suc n) i b r
skip_one n i b r e (all_ones h) = all_ones (λ j le lt. elim (Bool-cases (i == j)) [
  | inl same ↦ let s : i ≡ j = ground arith in rw (← s) e
  | inr other ↦ h j (ground arith) (omega arith)
])
skip_one n i b r e (zero_at w p le lt low h) =
    zero_at w p (omega arith) (omega arith) low (λ j le' lt'. elim (Bool-cases (i == j)) [
      | inl same ↦ let s : i ≡ j = ground arith in rw (← s) e
      | inr other ↦ h j (ground arith) lt'
    ])

find_word-Found : (n i : ℕ) (b : Block) → Found n i b (find_word n i b)
unfolding find_word
find_word-Found zero i b = all_ones (λ j le lt. absurd (omega arith))
find_word-Found (suc n) i b = elim (Bool-cases (u64_at b i == u64_max)) [
  | inl full ↦
      rw (full, find_word)
        (skip_one n i b (find_word n (i + 1) b) (ground arith) (find_word-Found n (i + 1) b))
  | inr free ↦
      rw (free, find_word)
        (zero_at i (trailing_ones 64 (u64_at b i)) (omega arith) (omega arith)
          (trailing_ones-LowestZero 64 (u64_at b i) (u64_at-lt b i) (λ e. ground arith))
          (λ j le lt. absurd (omega arith)))
]

-- The first free bit of a block, if there is one, and the block with that bit set.
pub data TakesBit (b : Block) : Option (ℕ × Block) → Type 0 where
  full : ((n : ℕ) → n < 4096 → block_bit b n ≡ 1) → TakesBit b none
  takes :
      (k : ℕ) (b' : Block)
      → k < 4096
      → block_bit b k ≡ 0
      → ((n : ℕ) → n < k → block_bit b n ≡ 1)
      → ((n : ℕ) → n < 4096 → block_bit b' n ≡ (if k == n then 1 else block_bit b n))
      → TakesBit b (some (k, b'))

word_ones : (b : Block) (n : ℕ) → u64_at b (n / 64) ≡ u64_max → block_bit b n ≡ 1
word_ones b n e = rw e (bit-ones 64 (n % 64) (omega arith))

set_bit :
    (b : Block) (w p n : ℕ)
    → p < 64
    → block_bit (set_u64 b w (bit_or (u64_at b w) (2 ^ p))) n
      ≡ (if w * 64 + p == n then 1 else block_bit b n)
set_bit b w p n h =
    rw (u64_at-set_u64 b w (bit_or (u64_at b w) (2 ^ p)) (n / 64))
      (elim (Bool-cases (w == n / 64)) [
        | inl here ↦
            let same : w ≡ n / 64 = ground arith in
            rw
              (
                here,
                bit-mod 64 (n % 64) (bit_or (u64_at b w) (2 ^ p)) (omega arith),
                bit-bit_or (n % 64) (u64_at b w) (2 ^ p),
                bit-pow p (n % 64),
                same,
              )
              (ground (arith, bit-lt_two (u64_at b (n / 64)) (n % 64)))
        | inr there ↦ rw there (ground arith)
      ])

take-Found :
    (b : Block) (r : Option (ℕ × ℕ))
    → Found 64 0 b r
    → TakesBit b (elim r [
      | none ↦ none
      | some (w, p) ↦ some (w * 64 + p, set_u64 b w (bit_or (u64_at b w) (2 ^ p)))
    ])
take-Found b r (all_ones h) = full (λ n lt. word_ones b n (h (n / 64) (omega arith) (omega arith)))
take-Found b r (zero_at w p le lt low h) =
    let quot : (w * 64 + p) / 64 ≡ w = omega (arith, low.0) in
    let rest : (w * 64 + p) % 64 ≡ p = omega (arith, low.0) in
    takes (w * 64 + p) _ (omega (arith, low.0)) (rw (quot, rest) low.1)
      (λ n l. elim (dec_lt (n / 64) w) [
        | yes before ↦ word_ones b n (h (n / 64) (omega arith) before)
        | no there ↦
            let same : n / 64 ≡ w = omega (arith, low.0) in
            rw same (low.2 (n % 64) (omega (arith, low.0)))
      ])
      (λ n l. set_bit b w p n low.0)

pub alloc_in-TakesBit : (b : Block) → TakesBit b (alloc_in b)
unfolding alloc_in
alloc_in-TakesBit b = take-Found b (find_word 64 0 b) (find_word-Found 64 0 b)
