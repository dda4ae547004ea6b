-- ===== src/EasyFs/Efs.antt =====
-- easy-fs/src/efs.rs: the areas of a device, formatting and opening it, and allocating inodes and
-- data blocks. Of `create`, the layout, the clearing and the super block are modelled; writing the
-- root inode is not.
pub mod Areas
pub mod Data
mod Tests
use rcore_os.Prelude.{
  ℕ, zero, suc, ◌+◌, ◌-◌, ◌*◌, ◌/◌, ◌%◌, ◌^◌, Bool, true, false, Option, none, some, if◌then◌else◌,
  ltb, ◌==◌, Outcome, returns, panics, ◌>>=◌, ◌>>◌, assert, unwrap,
}
use rcore_os.EasyFs.Disk.{Block, Disk, update, block_sz}
use rcore_os.EasyFs.Bitmap
use rcore_os.EasyFs.Bitmap.{Bitmap, bitmap, maxmium}
use rcore_os.EasyFs.Layout.{
  SuperBlock, super_block_at, initialize_super_block, is_valid, add_u32, sub_u32, efs_magic,
}

-- `size_of::<DiskInode>()`: 31 words and the type, padded to a word.
abbrev pub inode_size : ℕ
inode_size = 128

pub record EasyFileSystem : Type 0 where
  pub inode_bitmap : Bitmap
  pub data_bitmap : Bitmap
  pub inode_area_start_block : ℕ
  pub data_area_start_block : ℕ

-- The sizes that `create` computes, in `u32`.
pub inode_area_blocks_of : ℕ → ℕ
unfolding bitmap maxmium
inode_area_blocks_of inode_bitmap_blocks =
    (maxmium (bitmap 1 inode_bitmap_blocks) * inode_size + block_sz - 1) / block_sz % 2 ^ 32

pub inode_total_blocks_of : ℕ → ℕ
unfolding inode_area_blocks_of
inode_total_blocks_of inode_bitmap_blocks =
    add_u32 inode_bitmap_blocks (inode_area_blocks_of inode_bitmap_blocks)

pub data_total_blocks_of : ℕ → ℕ → ℕ
unfolding inode_total_blocks_of
data_total_blocks_of total_blocks inode_bitmap_blocks =
    sub_u32 (sub_u32 total_blocks 1) (inode_total_blocks_of inode_bitmap_blocks)

pub data_bitmap_blocks_of : ℕ → ℕ → ℕ
unfolding data_total_blocks_of
data_bitmap_blocks_of total_blocks inode_bitmap_blocks =
    add_u32 (data_total_blocks_of total_blocks inode_bitmap_blocks) 4096 / 4097

pub data_area_blocks_of : ℕ → ℕ → ℕ
unfolding data_bitmap_blocks_of
data_area_blocks_of total_blocks inode_bitmap_blocks =
    sub_u32 (data_total_blocks_of total_blocks inode_bitmap_blocks)
      (data_bitmap_blocks_of total_blocks inode_bitmap_blocks)

-- The file system that `create` makes.
pub file_system : ℕ → ℕ → EasyFileSystem
unfolding bitmap inode_total_blocks_of data_bitmap_blocks_of
file_system total_blocks inode_bitmap_blocks = record {
  inode_bitmap = bitmap 1 inode_bitmap_blocks;
  data_bitmap =
      bitmap (1 + inode_total_blocks_of inode_bitmap_blocks)
        (data_bitmap_blocks_of total_blocks inode_bitmap_blocks);
  inode_area_start_block = add_u32 1 inode_bitmap_blocks;
  data_area_start_block =
      add_u32 (add_u32 1 (inode_total_blocks_of inode_bitmap_blocks))
        (data_bitmap_blocks_of total_blocks inode_bitmap_blocks);
}

abbrev pub zeros : Block
zeros k = 0

-- `for i in 0..total_blocks`, from the block `i` on.
pub clear_blocks : ℕ → ℕ → Disk → Disk
clear_blocks zero i d = d
clear_blocks (suc n) i d = clear_blocks n (i + 1) (update d i zeros)

-- `create`, up to the super block.
pub format : Disk → ℕ → ℕ → EasyFileSystem × Disk
format d total_blocks inode_bitmap_blocks =
    let d' = clear_blocks total_blocks 0 d in
    (
      file_system total_blocks inode_bitmap_blocks,
      update d' 0 (
          initialize_super_block (d' 0) total_blocks inode_bitmap_blocks
            (inode_area_blocks_of inode_bitmap_blocks)
            (data_bitmap_blocks_of total_blocks inode_bitmap_blocks)
            (data_area_blocks_of total_blocks inode_bitmap_blocks)),
    )

-- `EasyFileSystem::open`
pub open_device : Disk → Outcome EasyFileSystem
unfolding is_valid bitmap
open_device d = do
  let s = super_block_at (d 0)
  assert (is_valid s)
  let inode_total_blocks = add_u32 s.inode_bitmap_blocks s.inode_area_blocks
  returns (record {
    inode_bitmap = bitmap 1 s.inode_bitmap_blocks;
    data_bitmap = bitmap (1 + inode_total_blocks) s.data_bitmap_blocks;
    inode_area_start_block = add_u32 1 s.inode_bitmap_blocks;
    data_area_start_block = add_u32 (add_u32 1 inode_total_blocks) s.data_bitmap_blocks;
  })

abbrev pub inodes_per_block : ℕ
inodes_per_block = block_sz / inode_size

pub get_disk_inode_pos : EasyFileSystem → ℕ → ℕ × ℕ
get_disk_inode_pos efs inode_id = (
  add_u32 efs.inode_area_start_block (inode_id / inodes_per_block),
  inode_id % inodes_per_block * inode_size,
)

pub get_data_block_id : EasyFileSystem → ℕ → ℕ
get_data_block_id efs data_block_id = add_u32 efs.data_area_start_block data_block_id

pub alloc_inode : EasyFileSystem → Disk → Outcome (ℕ × Disk)
alloc_inode efs d = do
  let r = Bitmap.alloc efs.inode_bitmap d
  n ← unwrap r.0
  returns (n % 2 ^ 32, r.1)

pub alloc_data : EasyFileSystem → Disk → Outcome (ℕ × Disk)
alloc_data efs d = do
  let r = Bitmap.alloc efs.data_bitmap d
  n ← unwrap r.0
  returns (add_u32 efs.data_area_start_block (n % 2 ^ 32), r.1)

pub dealloc_data : EasyFileSystem → Disk → ℕ → Outcome Disk
dealloc_data efs d block_id =
    Bitmap.dealloc efs.data_bitmap (update d block_id zeros)
      (sub_u32 block_id efs.data_area_start_block)
