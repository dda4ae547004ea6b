-- ===== src/Mm/FrameAllocator/Trackers.antt =====
-- os/src/mm/frame_allocator.rs: `FrameTracker`, which zeroes its page when it is made and gives the
-- page back when it is dropped, over the allocator and the bytes of physical memory.
mod Held
pub mod Ownership
mod Tests
use rcore_os.Prelude.{
  ℕ, zero, suc, ◌+◌, ◌-◌, ◌^◌, ◌%◌, ◌≤◌, ◌<◌, ◌≡◌, ◌≢◌, refl, sym, subst, Bool, true, false, ◌||◌,
  ◌&&◌, not, List, [], ◌∷◌, ◌++◌, Option, none, some, if◌then◌else◌, ltb, leb, ◌==◌, mem, All,
  Distinct, Outcome, returns, panics, ◌>>=◌, arith, inl, inr, Bool-cases, length,
}
use rcore_os.Mm.FrameAllocator.{StackFrameAllocator, new, init, alloc, alloc_more, dealloc}
use rcore_os.Mm.FrameAllocator.Free.{
  is_free, IsValid, init-IsValid, Allocates, exhausted, hands_out, alloc-Allocates, dealloc-Frees,
  alloc_more-Allocates,
}

-- The allocator, the bytes of each page, and the page numbers of the trackers that are alive.
pub record World : Type 0 where
  pub allocator : StackFrameAllocator
  pub bytes : ℕ → ℕ → ℕ
  pub held : List ℕ

-- `bytes_array.fill(0)` on the page `ppn`.
abbrev pub clean : ℕ → (ℕ → ℕ → ℕ) → ℕ → ℕ → ℕ
clean ppn bytes p off = if p == ppn then 0 else bytes p off

-- `FrameTracker::new`
pub tracker : World → ℕ → World
tracker w ppn = record w { bytes = clean ppn w.bytes; held = ppn ∷ w.held }

pub trackers : World → List ℕ → World
trackers w [] = w
trackers w (ppn ∷ rest) = trackers (tracker w ppn) rest

pub track_one : World → Option ℕ × StackFrameAllocator → Option ℕ × World
track_one w (none, a) = (none, record w { allocator = a })
track_one w (some ppn, a) = (some ppn, tracker (record w { allocator = a }) ppn)

pub frame_alloc : World → Option ℕ × World
unfolding track_one
frame_alloc w = track_one w (alloc w.allocator)

pub track_all : World → Option (List ℕ) × StackFrameAllocator → Option (List ℕ) × World
track_all w (none, a) = (none, record w { allocator = a })
track_all w (some ppns, a) = (some ppns, trackers (record w { allocator = a }) ppns)

pub frame_alloc_more : World → ℕ → Option (List ℕ) × World
unfolding track_all
frame_alloc_more w num = track_all w (alloc_more w.allocator num)

-- The trackers without one of the page `ppn`.
abbrev pub remove : ℕ → List ℕ → List ℕ
remove ppn [] = []
remove ppn (x ∷ xs) = if x == ppn then xs else x ∷ remove ppn xs

-- `frame_dealloc`, called by `FrameTracker::drop`.
pub drop_tracker : World → ℕ → Outcome World
drop_tracker w ppn = do
  a ← dealloc w.allocator ppn
  returns (record w { allocator = a; held = remove ppn w.held })

-- What the kernel does with frames. Only a tracker that is alive can be dropped, and only the page
-- of one is written.
pub data Op : Type 0 where
  takes : Op
  takes_more : ℕ → Op
  drops : ℕ → Op
  writes : ℕ → ℕ → ℕ → Op

abbrev pub write : World → ℕ → ℕ → ℕ → World
write w ppn off v = record w { bytes = λ p o. if (p == ppn) && (o == off) then v else w.bytes p o }

pub step : World → Op → Outcome World
step w takes = returns (frame_alloc w).1
step w (takes_more num) = returns (frame_alloc_more w num).1
step w (drops ppn) = if mem ppn w.held then drop_tracker w ppn else returns w
step w (writes ppn off v) = returns (if mem ppn w.held then write w ppn off v else w)

pub run : World → List Op → Outcome World
run w [] = returns w
run w (op ∷ ops) = step w op >>= λ w'. run w' ops

-- `init_frame_allocator` for the pages from `l` on and below `r`.
pub boot : (ℕ → ℕ → ℕ) → ℕ → ℕ → World
boot bytes l r = record { allocator = init new l r; bytes = bytes; held = [] }

-- The trackers alive are of different pages, none of which the allocator holds to be free.
pub record Owned (w : World) : Type 0 where
  pub valid : IsValid w.allocator
  pub distinct : Distinct w.held
  pub used : (n : ℕ) → mem n w.held ≡ true → is_free w.allocator n ≡ false
  pub inside : (n : ℕ) → mem n w.held ≡ true → n < w.allocator.end
