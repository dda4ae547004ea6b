-- ===== src/EasyFs/Layout.antt =====
-- easy-fs/src/layout.rs: the super block, and the index of a file's data blocks in a disk inode:
-- how many blocks a size needs, which block holds a part of the file, and giving all blocks back.
pub mod SuperBlocks
pub mod Sizes
pub mod Clear
pub mod Reclaim
pub mod Io
pub mod Entries
mod Tests
use rcore_os.Prelude.{
  ℕ, zero, suc, ◌+◌, ◌-◌, ◌*◌, ◌/◌, ◌%◌, ◌^◌, min, Bool, true, false, List, [], ◌∷◌, ◌++◌, Option,
  none, some, if◌then◌else◌, ltb, leb, ◌==◌, Outcome, returns, panics, ◌>>=◌, ◌>>◌, assert,
}
use rcore_os.EasyFs.Disk.{Block, Disk, u32_at, set_u32, block_sz}

abbrev pub efs_magic : ℕ
efs_magic = 0x3b800001

abbrev pub inode_direct_count : ℕ
inode_direct_count = 26

abbrev pub inode_indirect1_count : ℕ
inode_indirect1_count = block_sz / 4

abbrev pub inode_indirect2_count : ℕ
inode_indirect2_count = inode_indirect1_count * inode_indirect1_count

abbrev pub direct_bound : ℕ
direct_bound = inode_direct_count

abbrev pub indirect1_bound : ℕ
indirect1_bound = direct_bound + inode_indirect1_count

-- Arithmetic on `u32`.
abbrev pub add_u32 : ℕ → ℕ → ℕ
add_u32 a b = (a + b) % 2 ^ 32

abbrev pub sub_u32 : ℕ → ℕ → ℕ
sub_u32 a b = (a + 2 ^ 32 - b) % 2 ^ 32

abbrev pub mul_u32 : ℕ → ℕ → ℕ
mul_u32 a b = (a * b) % 2 ^ 32

pub record SuperBlock : Type 0 where
  pub magic : ℕ
  pub total_blocks : ℕ
  pub inode_bitmap_blocks : ℕ
  pub inode_area_blocks : ℕ
  pub data_bitmap_blocks : ℕ
  pub data_area_blocks : ℕ

-- The view of a block as a super block: six words.
pub super_block_at : Block → SuperBlock
super_block_at b = record {
  magic = u32_at b 0;
  total_blocks = u32_at b 1;
  inode_bitmap_blocks = u32_at b 2;
  inode_area_blocks = u32_at b 3;
  data_bitmap_blocks = u32_at b 4;
  data_area_blocks = u32_at b 5;
}

-- `SuperBlock::initialize` on that view.
pub initialize_super_block : Block → ℕ → ℕ → ℕ → ℕ → ℕ → Block
initialize_super_block b total inode_bitmap inode_area data_bitmap data_area =
    set_u32
      (set_u32
        (set_u32 (set_u32 (set_u32 (set_u32 b 0 efs_magic) 1 total) 2 inode_bitmap) 3 inode_area) 4
        data_bitmap)
      5 data_area

unfoldable pub is_valid : SuperBlock → Bool
is_valid s = s.magic == efs_magic

pub data DiskInodeType : Type 0 where
  file directory : DiskInodeType

-- `direct` gives the entries of the array by their index, which the code keeps below 26.
pub record DiskInode : Type 0 where
  pub size : ℕ
  pub nlink : ℕ
  pub direct : ℕ → ℕ
  pub indirect1 : ℕ
  pub indirect2 : ℕ
  pub kind : DiskInodeType

-- `DiskInode::initialize`
pub initialize : DiskInodeType → DiskInode
initialize kind = record {
  size = 0;
  nlink = 1;
  direct = λ i. 0;
  indirect1 = 0;
  indirect2 = 0;
  kind = kind;
}

unfoldable pub is_dir : DiskInode → Bool
is_dir inode = elim inode.kind [ directory ↦ true | file ↦ false ]

unfoldable pub is_file : DiskInode → Bool
is_file inode = elim inode.kind [ file ↦ true | directory ↦ false ]

pub get_block_id : DiskInode → Disk → ℕ → Outcome ℕ
get_block_id inode d inner_id =
    if ltb inner_id direct_bound
    then returns (inode.direct inner_id)
    else if ltb inner_id indirect1_bound
    then returns (u32_at (d inode.indirect1) (inner_id - inode_direct_count))
    else (do
      let last = inner_id - indirect1_bound
      assert (ltb (last / inode_indirect1_count) inode_indirect1_count)
      let indirect1 = u32_at (d inode.indirect2) (last / inode_indirect1_count)
      returns (u32_at (d indirect1) (last % inode_indirect1_count)))

-- `_data_blocks`: `size + BLOCK_SZ - 1` is computed on `u32`.
pub data_blocks_of : ℕ → ℕ
data_blocks_of size = sub_u32 (add_u32 size block_sz) 1 / block_sz

pub data_blocks : DiskInode → ℕ
data_blocks inode = data_blocks_of inode.size

-- The blocks that index `n` data blocks take, besides these.
pub index_blocks : ℕ → ℕ
index_blocks n =
    (if ltb direct_bound n then 1 else 0)
    + (if ltb indirect1_bound n
        then 1 + (n - indirect1_bound + inode_indirect1_count - 1) / inode_indirect1_count
        else 0)

-- The count is cast to `u32`.
pub total_blocks : ℕ → ℕ
unfolding index_blocks
total_blocks size = (data_blocks_of size + index_blocks (data_blocks_of size)) % 2 ^ 32

pub blocks_num_needed : DiskInode → ℕ → Outcome ℕ
blocks_num_needed inode new_size = do
  assert (leb inode.size new_size)
  returns (sub_u32 (total_blocks new_size) (total_blocks inode.size))

-- The words of a block from the word `i` on, `n` of them.
pub words : Block → ℕ → ℕ → List ℕ
words b i zero = []
words b i (suc n) = u32_at b i ∷ words b (i + 1) n

-- The entries of `direct` from `i` on, `n` of them.
pub direct_entries : (ℕ → ℕ) → ℕ → ℕ → List ℕ
direct_entries direct i zero = []
direct_entries direct i (suc n) = direct i ∷ direct_entries direct (i + 1) n

-- The index blocks in the entries of the second-level block from `i` on, `n` of them, each followed
-- by its 128 entries.
pub full_groups : Disk → Block → ℕ → ℕ → List ℕ
full_groups d indirect2 i zero = []
full_groups d indirect2 i (suc n) =
    u32_at indirect2 i
    ∷ (words (d (u32_at indirect2 i)) 0 inode_indirect1_count ++ full_groups d indirect2 (i + 1) n)

-- The last index block and its first `b1` entries, if there are any.
pub last_group : Disk → Block → ℕ → ℕ → List ℕ
last_group d indirect2 a1 b1 =
    if ltb 0 b1 then u32_at indirect2 a1 ∷ words (d (u32_at indirect2 a1)) 0 b1 else []

-- `clear_size` from the second-level block on, with `n` data blocks left.
clear_indirect2 : DiskInode → Disk → ℕ → List ℕ → Outcome (List ℕ × DiskInode)
unfolding full_groups last_group
clear_indirect2 inode d n v =
    if ltb inode_indirect1_count n
    then (do
      let n' = n - inode_indirect1_count
      assert (leb n' inode_indirect2_count)
      let a1 = n' / inode_indirect1_count
      let b1 = n' % inode_indirect1_count
      returns (
        v
            ++ (inode.indirect2
                ∷ (full_groups d (d inode.indirect2) 0 a1
                    ++ last_group d (d inode.indirect2) a1 b1)),
        record inode { indirect2 = 0 },
      ))
    else returns (v, inode)

-- `clear_size` from the first-level block on.
clear_indirect1 : DiskInode → Disk → ℕ → List ℕ → Outcome (List ℕ × DiskInode)
unfolding clear_indirect2
clear_indirect1 inode d n v =
    if ltb inode_direct_count n
    then clear_indirect2 (record inode { indirect1 = 0 }) d (n - inode_direct_count)
        (v
          ++ (inode.indirect1
              ∷ words (d inode.indirect1) 0 (min (n - inode_direct_count) inode_indirect1_count)))
    else returns (v, inode)

-- The blocks that are given back, and the inode; the disk stays as it is.
pub clear_size : DiskInode → Disk → Outcome (List ℕ × DiskInode)
unfolding clear_indirect1
clear_size inode d =
    let n = data_blocks inode in
    let used = min n inode_direct_count in
    clear_indirect1
      (record inode { size = 0; direct = λ i. if ltb i used then 0 else inode.direct i }) d n
      (direct_entries inode.direct 0 used)
