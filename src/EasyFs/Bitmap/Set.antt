-- ===== src/EasyFs/Bitmap/Set.antt =====
-- A bitmap on a disk as the set of the bits that are taken.
use rcore_os.Prelude.{
  ℕ, zero, suc, ◌+◌, ◌-◌, ◌*◌, ◌/◌, ◌%◌, ◌^◌, ◌≤◌, ◌<◌, ◌≡◌, ◌⊎◌, refl, ap, Option, none, some,
  if◌then◌else◌, ◌==◌, bit_and, arith, Bool-cases, inl, inr, dec_lt, Outcome, returns, panics,
  ◌>>=◌, lt→ltb,
}
use rcore_os.Prelude.Digits.{
  bit-bit_and, bit-pow, bit-mod, bit-complement, bit-lt_two, pow-lt-pow, bit_and-pow_pos,
}
use rcore_os.EasyFs.Disk.{Disk, update, u64_at, set_u64, u64_at-lt, u64_at-set_u64}
use rcore_os.EasyFs.Disk as Blocks
use rcore_os.EasyFs.Bitmap.{Bitmap, u64_max, block_bits, alloc, alloc_from, alloc_in, dealloc}
use rcore_os.EasyFs.Bitmap.Words.{block_bit, TakesBit, full, takes, alloc_in-TakesBit}

-- The bit `n` of the bitmap on the disk `d`.
abbrev pub bit_at : Bitmap → Disk → ℕ → ℕ
bit_at m d n = block_bit (d (n / block_bits + m.start_block_id)) (n % block_bits)

-- What one allocation may do: fail because every bit is taken, or take the first bit that was free,
-- and then that bit alone has changed, and no block outside the bitmap.
pub data Allocates (m : Bitmap) (d : Disk) : Option ℕ × Disk → Type 0 where
  exhausted : ((n : ℕ) → n < m.blocks * block_bits → bit_at m d n ≡ 1) → Allocates m d (none, d)
  takes_first :
      (pos : ℕ) (d' : Disk)
      → pos < m.blocks * block_bits
      → bit_at m d pos ≡ 0
      → ((n : ℕ) → n < pos → bit_at m d n ≡ 1)
      → ((n : ℕ) → bit_at m d' n ≡ (if pos == n then 1 else bit_at m d n))
      → ((b : ℕ) → (b < m.start_block_id) ⊎ (m.start_block_id + m.blocks ≤ b) → d' b ≡ d b)
      → Allocates m d (some pos, d')

alloc_round : ℕ → Bitmap → ℕ → Disk → Option (ℕ × Blocks.Block) → Option ℕ × Disk
alloc_round n m idx d r = elim r [
  | none ↦ alloc_from m n (idx + 1) d
  | some (pos, b) ↦ (some (idx * block_bits + pos), update d (idx + m.start_block_id) b)
]

-- The bits below the block `idx` are taken.
abbrev TakenBelow : Bitmap → Disk → ℕ → Type 0
TakenBelow m d idx = (n : ℕ) → n < idx * block_bits → bit_at m d n ≡ 1

taken_next :
    (m : Bitmap) (d : Disk) (idx : ℕ)
    → TakenBelow m d idx
    → ((n : ℕ) → n < 4096 → block_bit (d (idx + m.start_block_id)) n ≡ 1)
    → TakenBelow m d (idx + 1)
taken_next m d idx h k n lt = elim (dec_lt n (idx * block_bits)) [
  | yes below ↦ h n below
  | no inside ↦ let at : n / 4096 ≡ idx = omega arith in rw at (k (n % 4096) (omega arith))
]

took :
    (m : Bitmap) (d : Disk) (idx k : ℕ) (b' : Blocks.Block)
    → TakenBelow m d idx
    → idx < m.blocks
    → k < 4096
    → block_bit (d (idx + m.start_block_id)) k ≡ 0
    → ((n : ℕ) → n < k → block_bit (d (idx + m.start_block_id)) n ≡ 1)
    → ((n : ℕ)
        → n < 4096
        → block_bit b' n ≡ (if k == n then 1 else block_bit (d (idx + m.start_block_id)) n))
    → Allocates m d (some (idx * block_bits + k), update d (idx + m.start_block_id) b')
took m d idx k b' below lt small free ones after =
    let quot : (idx * 4096 + k) / 4096 ≡ idx = omega arith in
    let rest : (idx * 4096 + k) % 4096 ≡ k = omega arith in
    takes_first (idx * block_bits + k) _ (omega arith) (rw (quot, rest) free)
      (λ n l. elim (dec_lt n (idx * block_bits)) [
        | yes before ↦ below n before
        | no inside ↦ let at : n / 4096 ≡ idx = omega arith in rw at (ones (n % 4096) (omega arith))
      ])
      (λ n. elim (Bool-cases (idx + m.start_block_id == n / block_bits + m.start_block_id)) [
        | inl here ↦
            let at : n / 4096 ≡ idx = ground arith in
            rw (here, after (n % 4096) (omega arith), at) (ground arith)
        | inr there ↦ rw there (ground arith)
      ])
      (λ b out. ground arith)

round-Allocates :
    (m : Bitmap) (n idx : ℕ) (d : Disk) (r : Option (ℕ × Blocks.Block))
    → idx < m.blocks
    → TakenBelow m d idx
    → (TakenBelow m d (idx + 1) → Allocates m d (alloc_from m n (idx + 1) d))
    → TakesBit (d (idx + m.start_block_id)) r
    → Allocates m d (alloc_round n m idx d r)
unfolding alloc_round
round-Allocates m n idx d r lt h later (full k) = later (taken_next m d idx h k)
round-Allocates m n idx d r lt h later (takes k b' small free ones after) =
    took m d idx k b' h lt small free ones after

alloc_from-Allocates :
    (m : Bitmap) (n idx : ℕ) (d : Disk)
    → idx + n ≡ m.blocks
    → TakenBelow m d idx
    → Allocates m d (alloc_from m n idx d)
unfolding alloc_from alloc_round
alloc_from-Allocates m zero idx d e h = exhausted (λ n lt. h n (omega arith))
alloc_from-Allocates m (suc n) idx d e h =
    round-Allocates m n idx d (alloc_in (d (idx + m.start_block_id))) (omega arith) h
      (λ h'. alloc_from-Allocates m n (idx + 1) d (omega arith) h')
      (alloc_in-TakesBit (d (idx + m.start_block_id)))

-- `Bitmap::alloc` fails exactly when every bit of the bitmap is taken, and changes nothing then;
-- otherwise it takes the first free bit. That bit alone changes, and no block outside the bitmap.
pub alloc-takes_first : (m : Bitmap) (d : Disk) → Allocates m d (alloc m d)
unfolding alloc
alloc-takes_first m d =
    alloc_from-Allocates m m.blocks 0 d (omega arith) (λ n lt. absurd (omega arith))

clear_bit :
    (b : Blocks.Block) (w p n : ℕ)
    → p < 64
    → block_bit (set_u64 b w (bit_and (u64_at b w) (u64_max - 2 ^ p))) n
      ≡ (if w * 64 + p == n then 0 else block_bit b n)
clear_bit b w p n h =
    rw (u64_at-set_u64 b w (bit_and (u64_at b w) (u64_max - 2 ^ p)) (n / 64))
      (elim (Bool-cases (w == n / 64)) [
        | inl here ↦
            let same : w ≡ n / 64 = ground arith in
            rw
              (
                here,
                bit-mod 64 (n % 64) (bit_and (u64_at b w) (u64_max - 2 ^ p)) (omega arith),
                bit-bit_and (n % 64) (u64_at b w) (u64_max - 2 ^ p),
                bit-complement 64 (n % 64) (2 ^ p) (omega arith) (pow-lt-pow p 64 h),
                bit-pow p (n % 64),
                same,
              )
              (ground (arith, bit-lt_two (u64_at b (n / 64)) (n % 64)))
        | inr there ↦ rw there (ground arith)
      ])

-- The disk after freeing the bit `n`.
abbrev freed : Bitmap → Disk → ℕ → Disk
freed m d n =
    let b = d (n / block_bits + m.start_block_id) in
    let w = n % block_bits / 64 in
    update d (n / block_bits + m.start_block_id)
      (set_u64 b w (bit_and (u64_at b w) (u64_max - 2 ^ (n % block_bits % 64))))

same_bit :
    (n k : ℕ)
    → n / 4096 ≡ k / 4096
    → (b c : Blocks.Block) → b ≡ c
    → (if n % 4096 / 64 * 64 + n % 4096 % 64 == k % 4096 then 0 else block_bit b (k % 4096))
      ≡ (if n == k then 0 else block_bit c (k % 4096))
same_bit n k at b c e =
    rw e (elim (Bool-cases (n == k)) [ inl same ↦ ground arith | inr other ↦ ground arith ])

bit_at-freed :
    (m : Bitmap) (d : Disk) (n k : ℕ)
    → bit_at m (freed m d n) k ≡ (if n == k then 0 else bit_at m d k)
bit_at-freed m d n k =
    elim (Bool-cases (n / block_bits + m.start_block_id == k / block_bits + m.start_block_id)) [
      | inl here ↦
          let at : n / 4096 ≡ k / 4096 = ground arith in
          rw
            (
              here,
              clear_bit (d (n / 4096 + m.start_block_id)) (n % 4096 / 64) (n % 4096 % 64) (k % 4096)
                  (omega arith),
            )
            (same_bit n k at (d (n / 4096 + m.start_block_id)) (d (k / 4096 + m.start_block_id))
              (ap (λ i. d (i + m.start_block_id)) at))
      | inr there ↦ rw there (ground arith)
    ]

-- What clearing the bit `n` has to deliver.
abbrev pub Clears : Bitmap → Disk → ℕ → Outcome Disk → Type 0
Clears m d n o =
    (d' : Disk) × (o ≡ returns d')
    × ((k : ℕ) → bit_at m d' k ≡ (if n == k then 0 else bit_at m d k))
    × ((b : ℕ) → (b < m.start_block_id) ⊎ (m.start_block_id + m.blocks ≤ b) → d' b ≡ d b)

-- `Bitmap::dealloc` of a bit of the bitmap panics exactly when the bit is free; otherwise it frees
-- it: that bit alone changes, and no block outside the bitmap.
pub dealloc-Clears :
    (m : Bitmap) (d : Disk) (n : ℕ)
    → n < m.blocks * block_bits
    → (bit_at m d n ≡ 0 → dealloc m d n ≡ panics)
      × (bit_at m d n ≡ 1 → Clears m d n (dealloc m d n))
unfolding dealloc
dealloc-Clears m d n lt = (
  λ free.
      let off : bit_and word (2 ^ p) ≡ 0 = (bit_and-pow_pos p word).0 free in rw (off, ◌>>=◌) refl,
  λ taken.
      let on : 0 < bit_and word (2 ^ p) = (bit_and-pow_pos p word).1 taken in
      (
        freed m d n,
        rw (lt→ltb 0 (bit_and word (2 ^ p)) on) refl,
        bit_at-freed m d n,
        λ b out. ground arith,
      ),
)
  where
    word : ℕ
    word = u64_at (d (n / 4096 + m.start_block_id)) (n % 4096 / 64)

    p : ℕ
    p = n % 4096 % 64
