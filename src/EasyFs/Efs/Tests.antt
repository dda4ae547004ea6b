-- ===== src/EasyFs/Efs/Tests.antt =====
-- A formatted device of 4096 blocks with one block of inode bitmap.
use rcore_os.Prelude.{
  ℕ, ◌≡◌, ◌-◌, ◌<◌, refl, if◌then◌else◌, ltb, ◌==◌, returns, arith, bit_or, ◌^◌, ◌/◌, ◌%◌, dec_lt,
}
use rcore_os.EasyFs.Disk.{Disk, update, u64_at, set_u64}
use rcore_os.Prelude.Digits.{bit-ones, trailing_ones}
use rcore_os.EasyFs.Bitmap.{alloc, alloc_from, alloc_in, find_word}
use rcore_os.EasyFs.Bitmap.Set.{bit_at}
use rcore_os.EasyFs.Efs.{
  EasyFileSystem, file_system, format, open_device, data_area_blocks_of, alloc_data, dealloc_data,
}
use rcore_os.EasyFs.Efs.Areas.{Fits, open_device-format}
use rcore_os.EasyFs.Efs.Data.{Ordered, GivesBack, dealloc_data-alloc_data, alloc_data_past_end}

fits : Fits 4096 1
fits = record { some_inodes = omega arith; room = omega arith; small = omega arith }

abbrev blank : Disk
blank b k = 0

open_device-format_example : open_device (format blank 4096 1).1 ≡ returns (format blank 4096 1).0
open_device-format_example = open_device-format blank 4096 1 fits

-- A small file system for a run: its data bitmap is the block 1, and its data starts at the block 2.
abbrev small : EasyFileSystem
small = record {
  inode_bitmap = record { start_block_id = 0; blocks = 1 };
  data_bitmap = record { start_block_id = 1; blocks = 1 };
  inode_area_start_block = 1;
  data_area_start_block = 2;
}

small-Ordered : Ordered small
small-Ordered = record { before = omega arith; small = omega arith }

-- The disk with the first bit taken.
abbrev one_taken : Disk
one_taken = update blank 1 (set_u64 (blank 1) 0 (bit_or (u64_at (blank 1) 0) (2 ^ 0)))

alloc_data-blank : alloc_data small blank ≡ returns (2, one_taken)
unfolding alloc_data alloc alloc_from alloc_in find_word trailing_ones u64_at
alloc_data-blank = refl

dealloc_data-alloc_data_example : GivesBack small blank 2 (dealloc_data small one_taken 2)
dealloc_data-alloc_data_example =
    dealloc_data-alloc_data small blank one_taken 2 small-Ordered alloc_data-blank

-- The device with the bits of its 3069 data blocks taken.
abbrev all_taken : Disk
all_taken b k = if b == 1026 then (if ltb k 383 then 255 else if k == 383 then 31 else 0) else 0

areas_4096 :
    (data_area_blocks_of 4096 1 ≡ 3069)
    × ((file_system 4096 1).data_bitmap ≡ record { start_block_id = 1026; blocks = 1 })
unfolding data_area_blocks_of file_system
areas_4096 = (refl, refl)

word_full : (w : ℕ) → w < 47 → u64_at (all_taken 1026) w ≡ 2 ^ 64 - 1
unfolding u64_at
word_full w h = ground arith

taken_bit :
    (n : ℕ) → n < 3069 → bit_at (record { start_block_id = 1026; blocks = 1 }) all_taken n ≡ 1
unfolding u64_at
taken_bit n h =
    let first : n / 4096 ≡ 0 = omega arith in
    let small : n % 4096 ≡ n = omega arith in
    rw (first, small)
      (elim (dec_lt (n / 64) 47) [
        | yes a ↦ rw (word_full (n / 64) a) (bit-ones 64 (n % 64) (omega arith))
        | no a ↦
            let last : n / 64 ≡ 47 = omega arith in rw last (bit-ones 61 (n % 64) (omega arith))
      ])

alloc_data_past_end_example :
    (d' : Disk) × (alloc_data (file_system 4096 1) all_taken ≡ returns (4096, d'))
unfolding u64_at
alloc_data_past_end_example =
    alloc_data_past_end 4096 1 all_taken fits
      (λ n h. rw areas_4096.1 (taken_bit n (omega (arith, areas_4096.0))))
      (rw (areas_4096.0, areas_4096.1) (omega arith)) (rw (areas_4096.0, areas_4096.1) refl)
