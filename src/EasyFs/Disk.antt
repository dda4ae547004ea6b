-- ===== src/EasyFs/Disk.antt =====
-- The blocks of a block device as they are seen through the block cache of easy-fs, and the typed
-- views `[u64; 64]` and `[u32; 128]` of a block, little-endian, that `get_ref` and `get_mut` give.
use rcore_os.Prelude.{
  ℕ, ◌+◌, ◌*◌, ◌/◌, ◌%◌, ◌^◌, ◌<◌, ◌≡◌, refl, if◌then◌else◌, ◌==◌, arith, Bool-cases, inl, inr,
}

abbrev pub block_sz : ℕ
block_sz = 512

-- The bytes of a block by their offset; a byte is read modulo 256.
abbrev pub Block : Type 0
Block = ℕ → ℕ

abbrev pub Disk : Type 0
Disk = ℕ → Block

-- Replacing the block `id`.
abbrev pub update : Disk → ℕ → Block → Disk
update d id b j = if id == j then b else d j

abbrev pub byte : Block → ℕ → ℕ
byte b k = b k % 256

unfoldable pub u64_at : Block → ℕ → ℕ
u64_at b i =
    byte b (8 * i + 0)
    + byte b (8 * i + 1) * 0x100
    + byte b (8 * i + 2) * 0x10000
    + byte b (8 * i + 3) * 0x1000000
    + byte b (8 * i + 4) * 0x100000000
    + byte b (8 * i + 5) * 0x10000000000
    + byte b (8 * i + 6) * 0x1000000000000
    + byte b (8 * i + 7) * 0x100000000000000

unfoldable pub set_u64 : Block → ℕ → ℕ → Block
set_u64 b i v k = if i == k / 8 then v / 256 ^ (k % 8) else b k

pub u32_at : Block → ℕ → ℕ
u32_at b i =
    byte b (4 * i + 0)
    + byte b (4 * i + 1) * 0x100
    + byte b (4 * i + 2) * 0x10000
    + byte b (4 * i + 3) * 0x1000000

pub set_u32 : Block → ℕ → ℕ → Block
set_u32 b i v k = if i == k / 4 then v / 256 ^ (k % 4) else b k

pub u64_at-lt : (b : Block) (i : ℕ) → u64_at b i < 2 ^ 64
unfolding u64_at
u64_at-lt b i = omega arith

pub u32_at-lt : (b : Block) (i : ℕ) → u32_at b i < 2 ^ 32
unfolding u32_at
u32_at-lt b i = omega arith

set_u64_at :
    (b : Block) (i v j m : ℕ)
    → m < 8
    → set_u64 b i v (8 * j + m) ≡ (if i == j then v / 256 ^ m else b (8 * j + m))
unfolding set_u64
set_u64_at b i v j m h =
    let quot : (8 * j + m) / 8 ≡ j = omega arith in
    let rest : (8 * j + m) % 8 ≡ m = omega arith in rw (quot, rest) refl

-- Writing the word `i` changes that word to `v` (cut to 64 bits) and no other.
pub u64_at-set_u64 :
    (b : Block) (i v j : ℕ) → u64_at (set_u64 b i v) j ≡ (if i == j then v % 2 ^ 64 else u64_at b j)
unfolding u64_at
u64_at-set_u64 b i v j = elim (Bool-cases (i == j)) [
  | inl e ↦ rw e (
      omega (
        arith,
        rw e at (set_u64_at b i v j 0 (omega arith)),
        rw e at (set_u64_at b i v j 1 (omega arith)),
        rw e at (set_u64_at b i v j 2 (omega arith)),
        rw e at (set_u64_at b i v j 3 (omega arith)),
        rw e at (set_u64_at b i v j 4 (omega arith)),
        rw e at (set_u64_at b i v j 5 (omega arith)),
        rw e at (set_u64_at b i v j 6 (omega arith)),
        rw e at (set_u64_at b i v j 7 (omega arith)),
      ))
  | inr e ↦ rw e (
      omega (
        arith,
        rw e at (set_u64_at b i v j 0 (omega arith)),
        rw e at (set_u64_at b i v j 1 (omega arith)),
        rw e at (set_u64_at b i v j 2 (omega arith)),
        rw e at (set_u64_at b i v j 3 (omega arith)),
        rw e at (set_u64_at b i v j 4 (omega arith)),
        rw e at (set_u64_at b i v j 5 (omega arith)),
        rw e at (set_u64_at b i v j 6 (omega arith)),
        rw e at (set_u64_at b i v j 7 (omega arith)),
      ))
]

set_u32_at :
    (b : Block) (i v j m : ℕ)
    → m < 4
    → set_u32 b i v (4 * j + m) ≡ (if i == j then v / 256 ^ m else b (4 * j + m))
unfolding set_u32
set_u32_at b i v j m h =
    let quot : (4 * j + m) / 4 ≡ j = omega arith in
    let rest : (4 * j + m) % 4 ≡ m = omega arith in rw (quot, rest) refl

-- Writing the word `i` changes that word to `v` (cut to 32 bits) and no other.
pub u32_at-set_u32 :
    (b : Block) (i v j : ℕ) → u32_at (set_u32 b i v) j ≡ (if i == j then v % 2 ^ 32 else u32_at b j)
unfolding u32_at
u32_at-set_u32 b i v j = elim (Bool-cases (i == j)) [
  | inl e ↦ rw e (
      omega (
        arith,
        rw e at (set_u32_at b i v j 0 (omega arith)),
        rw e at (set_u32_at b i v j 1 (omega arith)),
        rw e at (set_u32_at b i v j 2 (omega arith)),
        rw e at (set_u32_at b i v j 3 (omega arith)),
      ))
  | inr e ↦ rw e (
      omega (
        arith,
        rw e at (set_u32_at b i v j 0 (omega arith)),
        rw e at (set_u32_at b i v j 1 (omega arith)),
        rw e at (set_u32_at b i v j 2 (omega arith)),
        rw e at (set_u32_at b i v j 3 (omega arith)),
      ))
]
