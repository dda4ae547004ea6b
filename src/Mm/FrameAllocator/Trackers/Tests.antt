-- ===== src/Mm/FrameAllocator/Trackers/Tests.antt =====
-- Frame trackers at a concrete state and over a concrete history.
use rcore_os.Prelude.{ℕ, ◌≡◌, refl, List, [], ◌∷◌, some, returns, arith}
use rcore_os.Mm.FrameAllocator.{alloc}
use rcore_os.Mm.Address.{to_phys_page_num}
use rcore_os.Mm.FrameAllocator.Tests.{three_free, three_free-IsValid}
use rcore_os.Mm.FrameAllocator.Trackers.{
  World, Op, takes, takes_more, drops, writes, run, boot, Owned, frame_alloc,
}
use rcore_os.Mm.FrameAllocator.Trackers.Ownership.{run-boot-Owned}

abbrev ones : ℕ → ℕ → ℕ
ones p off = 1

abbrev history : List Op
history = takes ∷ takes_more 2 ∷ writes 3 0 9 ∷ drops 4 ∷ takes ∷ drops 3 ∷ []

run-boot-Owned_example :
    (w : World) × (run (boot ones 3 8) history ≡ returns w) × Owned w × (w.allocator.end ≡ 8)
run-boot-Owned_example =
    run-boot-Owned ones 3 8 history (omega arith) (omega arith)
      (tt, (omega arith, (tt, (tt, (tt, (tt, tt))))))

abbrev busy : World
busy = record { allocator = three_free; bytes = ones; held = 5 ∷ 3 ∷ [] }

busy-Owned : Owned busy
busy-Owned = record {
  valid = three_free-IsValid;
  distinct = (refl, (refl, tt));
  used = λ n h. ground arith;
  inside = λ n h. ground arith;
}

abbrev after_alloc : World
after_alloc = (frame_alloc busy).1

frame_alloc-busy : frame_alloc busy ≡ (some 4, after_alloc)
unfolding frame_alloc alloc to_phys_page_num
frame_alloc-busy = refl
