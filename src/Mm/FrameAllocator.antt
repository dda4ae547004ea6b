-- ===== src/Mm/FrameAllocator.antt =====
-- os/src/mm/frame_allocator.rs: the stack allocator of physical page numbers.
pub mod Free
pub mod Trackers
pub mod Tests
use rcore_os.Prelude.{
  ℕ, zero, suc, ◌+◌, ◌-◌, ◌^◌, Bool, true, false, ◌||◌, not, List, [], ◌∷◌, Option, none, some,
  if◌then◌else◌, ltb, leb, ◌==◌, mem, add_usize, sub_usize, bit_and, Outcome, returns, panics,
}
use rcore_os.Mm.Address.{to_phys_page_num}

-- The head of `recycled` is the back of the vector.
pub record StackFrameAllocator : Type 0 where
  pub current : ℕ
  pub end : ℕ
  pub recycled : List ℕ

pub new : StackFrameAllocator
new = record { current = 0; end = 0; recycled = [] }

pub init : StackFrameAllocator → ℕ → ℕ → StackFrameAllocator
init a l r = record a { current = l; end = r }

alloc_fresh : StackFrameAllocator → Option ℕ × StackFrameAllocator
alloc_fresh a =
    if a.current == a.end
    then (none, a)
    else (some (to_phys_page_num a.current), record a { current = add_usize a.current 1 })

alloc_from : List ℕ → StackFrameAllocator → Option ℕ × StackFrameAllocator
alloc_from [] a = alloc_fresh a
alloc_from (ppn ∷ rest) a = (some (to_phys_page_num ppn), record a { recycled = rest })

pub alloc : StackFrameAllocator → Option ℕ × StackFrameAllocator
unfolding alloc_from alloc_fresh
alloc a = alloc_from a.recycled a

-- `(1..pages + 1).map(|x| (current - x).into())`: from `current - i` on, `n` of them.
below_current : ℕ → ℕ → ℕ → List ℕ
below_current current i zero = []
below_current current i (suc n) =
    to_phys_page_num (sub_usize current i) ∷ below_current current (i + 1) n

pub alloc_more : StackFrameAllocator → ℕ → Option (List ℕ) × StackFrameAllocator
unfolding below_current
alloc_more a pages = if leb a.end (add_usize a.current pages) then (none, a) else (
  some (below_current (add_usize a.current pages) 1 (add_usize pages 1 - 1)),
  record a { current = add_usize a.current pages },
)

pub dealloc : StackFrameAllocator → ℕ → Outcome StackFrameAllocator
dealloc a ppn =
    if leb a.current ppn || mem ppn a.recycled
    then panics
    else returns (record a { recycled = ppn ∷ a.recycled })
