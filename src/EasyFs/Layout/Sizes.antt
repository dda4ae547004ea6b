-- ===== src/EasyFs/Layout/Sizes.antt =====
-- How many blocks a file of a given size takes.
use rcore_os.Prelude.{ℕ, ◌+◌, ◌-◌, ◌*◌, ◌^◌, ◌≤◌, ◌<◌, ◌≡◌, returns, panics, arith}
use rcore_os.EasyFs.Layout.{
  DiskInode, data_blocks_of, total_blocks, index_blocks, blocks_num_needed,
}

-- `data_blocks` is the least number of blocks of 512 bytes that hold `size` bytes.
pub data_blocks_of_tight :
    (size n : ℕ)
    → size < 2 ^ 32 - 512
    → (size ≤ data_blocks_of size * 512) × (size ≤ n * 512 → data_blocks_of size ≤ n)
unfolding data_blocks_of
data_blocks_of_tight size n h = (omega arith, λ k. omega arith)

data_blocks_of_mono : (s t : ℕ) → s ≤ t → t < 2 ^ 32 - 512 → data_blocks_of s ≤ data_blocks_of t
unfolding data_blocks_of
data_blocks_of_mono s t h k = omega arith

index_blocks_mono : (a b : ℕ) → a ≤ b → index_blocks a ≤ index_blocks b
unfolding index_blocks
index_blocks_mono a b h = ground arith

-- No cast or sum cuts a count: a file below 4 GB takes less than 2^31 blocks.
pub total_blocks_lem :
    (s : ℕ)
    → s < 2 ^ 32 - 512
    → (total_blocks s ≡ data_blocks_of s + index_blocks (data_blocks_of s))
      × (total_blocks s < 2 ^ 31)
unfolding total_blocks index_blocks data_blocks_of
total_blocks_lem s h = (ground arith, ground arith)

total_blocks_mono : (s t : ℕ) → s ≤ t → t < 2 ^ 32 - 512 → total_blocks s ≤ total_blocks t
total_blocks_mono s t h k = omega (
  arith,
  (total_blocks_lem s (omega arith)).0,
  (total_blocks_lem t k).0,
  data_blocks_of_mono s t h k,
  index_blocks_mono (data_blocks_of s) (data_blocks_of t) (data_blocks_of_mono s t h k),
)

-- For an old and a new size below 2^32 - 512, from where on the round up to whole blocks can wrap:
-- `blocks_num_needed` panics if the new size is smaller than the old one, and otherwise returns
-- exactly the number that makes the old total of blocks up to the new one.
pub blocks_num_needed_lem :
    (inode : DiskInode) (new_size : ℕ)
    → inode.size < 2 ^ 32 - 512
    → new_size < 2 ^ 32 - 512
    → (inode.size ≤ new_size
        → (n : ℕ) × (blocks_num_needed inode new_size ≡ returns n)
          × (total_blocks inode.size + n ≡ total_blocks new_size))
      × (new_size < inode.size → blocks_num_needed inode new_size ≡ panics)
unfolding blocks_num_needed
blocks_num_needed_lem inode new_size h k = (
  λ le.
      let mono : total_blocks inode.size ≤ total_blocks new_size =
        total_blocks_mono inode.size new_size le k in
      (
        total_blocks new_size - total_blocks inode.size,
        ground (arith, (total_blocks_lem inode.size h).1, (total_blocks_lem new_size k).1),
        omega arith,
      ),
  λ lt. ground arith,
)
