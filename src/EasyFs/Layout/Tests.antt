-- ===== src/EasyFs/Layout/Tests.antt =====
-- Disk inodes at concrete sizes.
use rcore_os.Prelude.{ℕ, ◌≡◌, ◌+◌, ◌≤◌, ◌*◌, returns, arith}
use rcore_os.EasyFs.Disk.{Disk}
use rcore_os.EasyFs.Layout.{
  DiskInode, file, data_blocks, data_blocks_of, total_blocks, blocks_num_needed, clear_size,
}
use rcore_os.EasyFs.Layout.Sizes.{blocks_num_needed_lem}
use rcore_os.EasyFs.Layout.Reclaim.{GivesAll, clear_size-Gives}

-- A file of 200 data blocks, whose index blocks are 1000 and 1001.
abbrev large_file : DiskInode
large_file = record {
  size = 200 * 512;
  nlink = 1;
  direct = λ i. 500 + i;
  indirect1 = 1000;
  indirect2 = 1001;
  kind = file;
}

abbrev some_disk : Disk
some_disk b k = b + k

data_blocks_large : data_blocks large_file ≤ 16538
unfolding data_blocks data_blocks_of
data_blocks_large = omega arith

clear_size-Gives_example : GivesAll large_file some_disk (clear_size large_file some_disk)
clear_size-Gives_example = clear_size-Gives large_file some_disk (omega arith) data_blocks_large

blocks_num_needed_lem_example :
    (n : ℕ) × (blocks_num_needed large_file 200000 ≡ returns n)
    × (total_blocks large_file.size + n ≡ total_blocks 200000)
blocks_num_needed_lem_example =
    (blocks_num_needed_lem large_file 200000 (omega arith) (omega arith)).0 (omega arith)
