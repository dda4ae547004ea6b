-- ===== src/EasyFs/Bitmap.antt =====
-- easy-fs/src/bitmap.rs: a bitmap over consecutive blocks. Block numbers and bit positions come
-- from `u32` fields, so the sums and products of them here stay below 2^64.
pub mod Words
pub mod Set
mod Tests
use rcore_os.Prelude.{
  ℕ, zero, suc, ◌+◌, ◌-◌, ◌*◌, ◌/◌, ◌%◌, ◌^◌, Bool, true, false, Option, none, some, if◌then◌else◌,
  ltb, ◌==◌, bit_and, bit_or, Outcome, returns, panics, ◌>>=◌, ◌>>◌, assert,
}
use rcore_os.Prelude.Digits.{trailing_ones}
use rcore_os.EasyFs.Disk.{Block, Disk, update, u64_at, set_u64, block_sz}

abbrev pub block_bits : ℕ
block_bits = block_sz * 8

abbrev pub u64_max : ℕ
u64_max = 2 ^ 64 - 1

pub record Bitmap : Type 0 where
  pub start_block_id : ℕ
  pub blocks : ℕ

-- `Bitmap::new`
unfoldable pub bitmap : ℕ → ℕ → Bitmap
bitmap start_block_id blocks = record { start_block_id = start_block_id; blocks = blocks }

-- The first of the `n` words from the word `i` on that is not all ones, with the position of its
-- lowest zero.
unfoldable pub find_word : ℕ → ℕ → Block → Option (ℕ × ℕ)
find_word zero i b = none
find_word (suc n) i b =
    if u64_at b i == u64_max then find_word n (i + 1) b else some (i, trailing_ones 64 (u64_at b i))

-- The closure that `alloc` runs on a block: the bit's position in the block and the changed block.
unfoldable pub alloc_in : Block → Option (ℕ × Block)
unfolding find_word
alloc_in b = elim (find_word 64 0 b) [
  | none ↦ none
  | some (bits64_pos, inner_pos) ↦ some (
    bits64_pos * 64 + inner_pos,
    set_u64 b bits64_pos (bit_or (u64_at b bits64_pos) (2 ^ inner_pos)),
  )
]

-- The rounds of `alloc` from the block `idx` on, `n` of them being left.
unfoldable pub alloc_from : Bitmap → ℕ → ℕ → Disk → Option ℕ × Disk
alloc_from m zero idx d = (none, d)
alloc_from m (suc n) idx d = elim (alloc_in (d (idx + m.start_block_id))) [
  | none ↦ alloc_from m n (idx + 1) d
  | some (pos, b) ↦ (some (idx * block_bits + pos), update d (idx + m.start_block_id) b)
]

unfoldable pub alloc : Bitmap → Disk → Option ℕ × Disk
alloc m d = alloc_from m m.blocks 0 d

pub decompsition : ℕ → ℕ × ℕ × ℕ
decompsition bit =
    let block_pos = bit / block_bits in
    let bit' = bit % block_bits in (block_pos, bit' / 64, bit' % 64)

pub dealloc : Bitmap → Disk → ℕ → Outcome Disk
unfolding decompsition
dealloc m d bit = do
  let pos = decompsition bit
  let b = d (pos.0 + m.start_block_id)
  let word = u64_at b pos.1
  assert (ltb 0 (bit_and word (2 ^ pos.2)))
  returns
      (update d (pos.0 + m.start_block_id) (set_u64 b pos.1 (bit_and word (u64_max - 2 ^ pos.2))))

unfoldable pub maxmium : Bitmap → ℕ
maxmium m = m.blocks * block_bits
