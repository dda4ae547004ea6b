-- ===== src/Mm/FrameAllocator/Tests.antt =====
-- The frame allocator at concrete states.
use rcore_os.Prelude.{refl, [], ◌∷◌, arith}
use rcore_os.Mm.FrameAllocator.{StackFrameAllocator, alloc, alloc_more, dealloc}
use rcore_os.Mm.FrameAllocator.Free.{
  IsValid, Allocates, Frees, TakesFrames, alloc-Allocates, dealloc-Frees, alloc_more-Allocates,
}

-- Of the pages 3 to 7, 4 has been given back and 6 and 7 have never been handed out.
abbrev pub three_free : StackFrameAllocator
three_free = record { current = 6; end = 8; recycled = 4 ∷ [] }

pub three_free-IsValid : IsValid three_free
three_free-IsValid = record {
  within = omega arith;
  small = omega arith;
  below = (omega arith, tt);
  distinct = (refl, tt);
}

alloc-Allocates_example : Allocates three_free (alloc three_free)
alloc-Allocates_example = alloc-Allocates three_free three_free-IsValid

dealloc-Frees_example : Frees three_free 5 (dealloc three_free 5)
dealloc-Frees_example = (dealloc-Frees three_free 5 three_free-IsValid).0 refl (omega arith)

alloc_more-Allocates_example : TakesFrames three_free 1 (alloc_more three_free 1)
alloc_more-Allocates_example =
    (alloc_more-Allocates three_free 1 three_free-IsValid (omega arith)).1 (omega arith)
