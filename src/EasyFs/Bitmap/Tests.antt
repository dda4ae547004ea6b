-- ===== src/EasyFs/Bitmap/Tests.antt =====
-- The bitmap on a concrete disk.
use rcore_os.Prelude.{◌≡◌, refl, if◌then◌else◌, ◌==◌, arith}
use rcore_os.EasyFs.Disk.{Disk, u64_at}
use rcore_os.EasyFs.Bitmap.{Bitmap, alloc, dealloc}
use rcore_os.EasyFs.Bitmap.Set.{Allocates, Clears, bit_at, alloc-takes_first, dealloc-Clears}

-- Two blocks from the block 1 on.
abbrev two_blocks : Bitmap
two_blocks = record { start_block_id = 1; blocks = 2 }

-- The first ten bits of the bitmap are taken.
abbrev ten_taken : Disk
ten_taken b k = if b == 1 then (if k == 0 then 255 else if k == 1 then 3 else 0) else 0

alloc-takes_first_example : Allocates two_blocks ten_taken (alloc two_blocks ten_taken)
alloc-takes_first_example = alloc-takes_first two_blocks ten_taken

nine_taken : bit_at two_blocks ten_taken 9 ≡ 1
unfolding u64_at
nine_taken = refl

dealloc-Clears_example : Clears two_blocks ten_taken 9 (dealloc two_blocks ten_taken 9)
dealloc-Clears_example = (dealloc-Clears two_blocks ten_taken 9 (omega arith)).1 nine_taken
