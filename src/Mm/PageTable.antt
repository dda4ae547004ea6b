-- ===== src/Mm/PageTable.antt =====
-- os/src/mm/page_table.rs: page table entries, and the tables of three levels that are walked,
-- extended and changed in physical memory, over the frame allocator.
pub mod Entries
pub mod Tree
pub mod Extends
pub mod Linking
pub mod Creating
pub mod Leaves
pub mod Lookup
pub mod Reaching
pub mod Mapping
pub mod Unmapping
pub mod Fresh
pub mod Buffers
mod Tests
use rcore_os.Prelude.{
  ℕ, ◌+◌, ◌-◌, ◌*◌, ◌/◌, ◌^◌, ◌%◌, Bool, true, false, not, List, [], ◌∷◌, ◌++◌, Option, none, some,
  if◌then◌else◌, ◌==◌, ◌&&◌, bit_and, bit_or, add_usize, Outcome, returns, panics, ◌>>=◌, ◌>>◌,
  assert, unwrap,
}
use mathlib.Core.Option
use rcore_os.Mm.Address.{
  shl, shr, to_phys_page_num, to_phys_addr, page_addr, page_offset, floor, indexes,
}
use rcore_os.Mm.FrameAllocator.{StackFrameAllocator, alloc}
use rcore_os.Mm.FrameAllocator.Trackers.{clean}

-- `PTEFlags`
abbrev pub flag_v : ℕ
flag_v = 1

abbrev pub flag_r : ℕ
flag_r = 2

abbrev pub flag_w : ℕ
flag_w = 4

abbrev pub flag_x : ℕ
flag_x = 8

abbrev pub flag_u : ℕ
flag_u = 16

abbrev pub flag_d : ℕ
flag_d = 128

-- `PageTableEntry::new`; an entry is its 64 bits.
pub pte_new : ℕ → ℕ → ℕ
pte_new ppn flags = bit_or (shl ppn 10) flags

pub pte_empty : ℕ
pte_empty = 0

unfoldable pub pte_ppn : ℕ → ℕ
pte_ppn bits = to_phys_page_num (bit_and (shr bits 10) (2 ^ 44 - 1))

-- `PTEFlags::from_bits` gives the flags of any eight bits, since each bit has a name.
pub pte_flags : ℕ → ℕ
pte_flags bits = bit_and bits (2 ^ 8 - 1)

abbrev contains : ℕ → ℕ → Bool
contains flags flag = bit_and flags flag == flag

unfoldable pub is_valid : ℕ → Bool
unfolding pte_flags
is_valid bits = contains (pte_flags bits) flag_v

pub readable : ℕ → Bool
unfolding pte_flags
readable bits = contains (pte_flags bits) flag_r

pub writable : ℕ → Bool
unfolding pte_flags
writable bits = contains (pte_flags bits) flag_w

pub executable : ℕ → Bool
unfolding pte_flags
executable bits = contains (pte_flags bits) flag_x

pub is_dirty : ℕ → Bool
unfolding pte_flags
is_dirty bits = contains (pte_flags bits) flag_d

-- The allocator, and the pages of memory as arrays of 512 entries (`get_pte_array`).
pub record Memory : Type 0 where
  pub allocator : StackFrameAllocator
  pub entries : ℕ → ℕ → ℕ

-- `*pte = bits`, of the entry `idx` of the page `ppn`.
pub write_pte : Memory → ℕ × ℕ → ℕ → Memory
write_pte m at bits = record m {
  entries = λ p i. if (p == at.0) && (i == at.1) then bits else m.entries p i;
}

-- `frame_alloc().unwrap()`: the page is zeroed.
unfoldable pub frame_alloc : Memory → Outcome (ℕ × Memory)
frame_alloc m = do
  let r = alloc m.allocator
  ppn ← unwrap r.0
  returns (ppn, record { allocator = r.1; entries = clean ppn m.entries })

pub record PageTable : Type 0 where
  pub root_ppn : ℕ
  pub frames : List ℕ

-- `PageTable::new`
pub new : Memory → Outcome (PageTable × Memory)
unfolding frame_alloc
new m = do r ← frame_alloc m; returns (record { root_ppn = r.0; frames = r.0 ∷ [] }, r.1)

pub from_token : ℕ → PageTable
from_token satp = record { root_ppn = to_phys_page_num (bit_and satp (2 ^ 44 - 1)); frames = [] }

pub token : PageTable → ℕ
token t = bit_or (shl 8 60) t.root_ppn

-- The loop of `find_pte` over the indexes that are left, from the page `ppn` on: where the entry is.
pub find_from : (ℕ → ℕ → ℕ) → List ℕ → ℕ → Option (ℕ × ℕ)
find_from entries [] ppn = none
find_from entries (i ∷ []) ppn = some (ppn, i)
find_from entries (i ∷ j ∷ rest) ppn = elim (is_valid (entries ppn i)) [
  | true ↦ find_from entries (j ∷ rest) (pte_ppn (entries ppn i))
  | false ↦ none
]

pub find_pte : PageTable → Memory → ℕ → Option (ℕ × ℕ)
find_pte t m vpn = find_from m.entries (indexes vpn) t.root_ppn

-- The entry `i` of the page `ppn`, made to point to a new page if it is invalid.
pub create_entry : ℕ → ℕ → PageTable → Memory → Outcome (PageTable × Memory)
unfolding frame_alloc write_pte
create_entry ppn i t m = if is_valid (m.entries ppn i) then returns (t, m) else (do
  r ← frame_alloc m
  returns
      (record t { frames = t.frames ++ (r.0 ∷ []) }, write_pte r.1 (ppn, i) (pte_new r.0 flag_v)))

-- The loop of `find_pte_create`, likewise.
pub create_from : List ℕ → ℕ → PageTable → Memory → Outcome (Option (ℕ × ℕ) × PageTable × Memory)
unfolding create_entry
create_from [] ppn t m = returns (none, t, m)
create_from (i ∷ []) ppn t m = returns (some (ppn, i), t, m)
create_from (i ∷ j ∷ rest) ppn t m =
    create_entry ppn i t m >>= λ r. create_from (j ∷ rest) (pte_ppn (r.1.entries ppn i)) r.0 r.1

pub find_pte_create : PageTable → Memory → ℕ → Outcome (Option (ℕ × ℕ) × PageTable × Memory)
find_pte_create t m vpn = create_from (indexes vpn) t.root_ppn t m

pub map : PageTable → Memory → ℕ → ℕ → ℕ → Outcome (PageTable × Memory)
map t m vpn ppn flags = do
  r ← find_pte_create t m vpn
  pte ← unwrap r.0
  assert (not (is_valid (r.2.entries pte.0 pte.1)))
  returns (r.1, write_pte r.2 pte (pte_new ppn (bit_or flags flag_v)))

pub unmap : PageTable → Memory → ℕ → Outcome Memory
unmap t m vpn = do
  pte ← unwrap (find_pte t m vpn)
  assert (is_valid (m.entries pte.0 pte.1))
  returns (write_pte m pte pte_empty)

pub translate : PageTable → Memory → ℕ → Option ℕ
translate t m vpn = Option.map (λ pte. m.entries pte.0 pte.1) (find_pte t m vpn)

pub translate_va : PageTable → Memory → ℕ → Option ℕ
translate_va t m va =
    Option.map
      (λ pte.
        to_phys_addr (add_usize (page_addr (pte_ppn (m.entries pte.0 pte.1))) (page_offset va)))
      (find_pte t m (floor va))
