-- ===== src/EasyFs/Efs/Areas.antt =====
-- The areas of a formatted device, and opening what was formatted.
use rcore_os.Prelude.{ℕ, ◌+◌, ◌-◌, ◌*◌, ◌^◌, ◌≤◌, ◌<◌, ◌≡◌, refl, ap, returns, arith}
use rcore_os.EasyFs.Disk.{Disk}
use rcore_os.EasyFs.Bitmap.{bitmap, maxmium}
use rcore_os.EasyFs.Layout.SuperBlocks.{super_block_at-initialize}
use rcore_os.EasyFs.Efs.{
  inode_area_blocks_of, inode_total_blocks_of, data_total_blocks_of, data_bitmap_blocks_of,
  data_area_blocks_of, file_system, format, open_device, clear_blocks, get_disk_inode_pos,
  inode_size,
}

-- A device that has room for its super block and its inodes, whose bitmap takes `ib` blocks.
pub record Fits (total ib : ℕ) : Type 0 where
  pub some_inodes : 0 < ib
  pub room : 1 + ib + ib * 1024 < total
  pub small : total < 2 ^ 31

-- The areas of a device that fits: super block, inode bitmap, inodes, data bitmap and data follow
-- one another and end with the device. The inode area holds every inode of its bitmap exactly, and
-- the data bitmap has a bit for each data block, with the least number of blocks that does.
pub file_system-areas :
    (total ib : ℕ)
    → Fits total ib
    → (inode_area_blocks_of ib * 512 ≡ maxmium (bitmap 1 ib) * inode_size)
      × ((file_system total ib).inode_bitmap.start_block_id ≡ 1)
      × ((file_system total ib).inode_area_start_block ≡ 1 + ib)
      × ((file_system total ib).data_bitmap.start_block_id ≡ 1 + ib + inode_area_blocks_of ib)
      × ((file_system total ib).data_area_start_block
          ≡ 1 + ib + inode_area_blocks_of ib + data_bitmap_blocks_of total ib)
      × ((file_system total ib).data_area_start_block + data_area_blocks_of total ib ≡ total)
      × (data_area_blocks_of total ib ≤ maxmium (file_system total ib).data_bitmap)
      × ((x : ℕ)
          → data_total_blocks_of total ib - x ≤ x * 4096
          → data_bitmap_blocks_of total ib ≤ x)
unfolding file_system bitmap maxmium inode_total_blocks_of data_area_blocks_of
file_system-areas total ib f = (
  omega arith,
  refl,
  omega arith,
  omega arith,
  omega arith,
  omega arith,
  omega arith,
  λ x h. omega arith,
)

-- Each inode of the bitmap has its place in the inode area, inside one block, and no two inodes
-- have the same place.
pub get_disk_inode_pos_lem :
    (total ib i j : ℕ)
    → Fits total ib
    → i < ib * 4096
    → j < ib * 4096
    → (1 + ib ≤ (get_disk_inode_pos (file_system total ib) i).0)
      × ((get_disk_inode_pos (file_system total ib) i).0 < 1 + ib + inode_area_blocks_of ib)
      × ((get_disk_inode_pos (file_system total ib) i).1 + inode_size ≤ 512)
      × (get_disk_inode_pos (file_system total ib) i ≡ get_disk_inode_pos (file_system total ib) j
          → i ≡ j)
unfolding get_disk_inode_pos file_system inode_area_blocks_of
get_disk_inode_pos_lem total ib i j f h k = (
  omega arith,
  omega arith,
  omega arith,
  λ e. omega (arith, ap (λ (x : ℕ × ℕ). x.0) e, ap (λ (x : ℕ × ℕ). x.1) e),
)

-- Opening a device that was formatted gives the file system that formatting made.
pub open_device-format :
    (d : Disk) (total ib : ℕ)
    → Fits total ib
    → open_device (format d total ib).1 ≡ returns (format d total ib).0
unfolding open_device format file_system inode_total_blocks_of data_area_blocks_of
open_device-format d total ib f =
    rw
      (super_block_at-initialize (clear_blocks total 0 d 0) total ib (inode_area_blocks_of ib)
        (data_bitmap_blocks_of total ib) (data_area_blocks_of total ib) (omega arith) (omega arith)
        (omega arith) (omega arith) (omega arith))
      refl
