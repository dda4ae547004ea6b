-- ===== src/Mm/MemorySet.antt =====
-- os/src/mm/memory_set.rs: areas of virtual memory and the address spaces that they make up, over the
-- page tables and the frame allocator.
pub mod Supply
pub mod Framed
pub mod Filling
pub mod Inserting
pub mod Releasing
pub mod Emptying
pub mod Removing
pub mod RoundTrip
mod Tests
use rcore_os.Prelude.{
  ℕ, zero, suc, ◌+◌, ◌-◌, ◌^◌, ◌%◌, Bool, true, false, List, [], ◌∷◌, ◌++◌, Option, none, some,
  if◌then◌else◌, ltb, ◌==◌, ◌&&◌, Outcome, returns, panics, ◌>>=◌, ◌>>◌, assert, unwrap, bit_or,
  add_usize, length,
}
use rcore_os.Mm.Address.{
  SimpleRange, simple_range, floor, ceil, to_virt_addr, to_phys_addr, page_num,
}
use rcore_os.Mm.FrameAllocator.{dealloc}
use rcore_os.Mm.PageTable.{
  Memory, PageTable, frame_alloc, new, map, unmap, translate, token, pte_ppn, flag_r, flag_w,
  flag_x, flag_u,
}

-- `Linear` adds an `isize` to a page number, on `usize`: the argument is its bit pattern.
pub data MapType : Type 0 where
  identical : MapType
  framed : MapType
  linear : ℕ → MapType

-- `MapPermission`
abbrev pub permission_r : ℕ
permission_r = 2

abbrev pub permission_w : ℕ
permission_w = 4

abbrev pub permission_x : ℕ
permission_x = 8

abbrev pub permission_u : ℕ
permission_u = 16

-- `BTreeMap<VirtPageNum, FrameTracker>`: the pages, in ascending order, with their frames.
abbrev pub Frames : Type 0
Frames = List (ℕ × ℕ)

-- `BTreeMap::get`
abbrev pub get_frame : Frames → ℕ → Option ℕ
get_frame [] vpn = none
get_frame (e ∷ es) vpn = if e.0 == vpn then some e.1 else get_frame es vpn

-- `BTreeMap::insert`
abbrev pub insert_frame : ℕ → ℕ → Frames → Frames
insert_frame vpn ppn [] = (vpn, ppn) ∷ []
insert_frame vpn ppn (e ∷ es) =
    if ltb vpn e.0
    then (vpn, ppn) ∷ e ∷ es
    else if e.0 == vpn
    then (vpn, ppn) ∷ es
    else e ∷ insert_frame vpn ppn es

-- `BTreeMap::remove`
abbrev pub remove_frame : ℕ → Frames → Frames
remove_frame vpn [] = []
remove_frame vpn (e ∷ es) = if e.0 == vpn then es else e ∷ remove_frame vpn es

-- `FrameTracker::drop`, of a tracker that is there.
pub drop_frame : Memory → Option ℕ → Outcome Memory
drop_frame m none = returns m
drop_frame m (some ppn) = do a ← dealloc m.allocator ppn; returns (record m { allocator = a })

-- Dropping the trackers of an area, in the order of the map.
pub drop_frames : Memory → Frames → Outcome Memory
drop_frames m [] = returns m
drop_frames m (e ∷ es) = drop_frame m (some e.1) >>= λ m'. drop_frames m' es

pub record MapArea : Type 0 where
  pub vpn_range : SimpleRange
  pub data_frames : Frames
  pub map_type : MapType
  pub map_perm : ℕ

-- `MapArea::new`
pub new_area : ℕ → ℕ → MapType → ℕ → Outcome MapArea
new_area start_va end_va map_type map_perm = do
  range ← simple_range (floor start_va) (ceil end_va)
  returns (record { vpn_range = range; data_frames = []; map_type = map_type; map_perm = map_perm })

pub from_another : MapArea → MapArea
from_another another = record another { data_frames = [] }

-- An area, a table and memory.
abbrev pub Mapping : Type 0
Mapping = MapArea × PageTable × Memory

-- The frame of a page in `map_one`, by the type of the area.
pub frame_for : MapType → MapArea → Memory → ℕ → Outcome (ℕ × MapArea × Memory)
frame_for identical a m vpn = returns (vpn, a, m)
frame_for framed a m vpn = do
  r ← frame_alloc m
  m' ← drop_frame r.1 (get_frame a.data_frames vpn)
  returns (r.0, record a { data_frames = insert_frame vpn r.0 a.data_frames }, m')
frame_for (linear pn_offset) a m vpn = do
  assert (ltb vpn (2 ^ 27))
  returns (add_usize vpn pn_offset, a, m)

-- Every bit of `map_perm` is one of `PTEFlags`.
pub map_one : MapArea → PageTable → Memory → ℕ → Outcome Mapping
map_one a t m vpn = do
  f ← frame_for a.map_type a m vpn
  r ← map t f.2 vpn f.0 a.map_perm
  returns (f.1, r.0, r.1)

-- Taking the frame of a page out of an area, which gives it back.
pub release_frame : MapType → MapArea → Memory → ℕ → Outcome (MapArea × Memory)
release_frame framed a m vpn = do
  m' ← drop_frame m (get_frame a.data_frames vpn)
  returns (record a { data_frames = remove_frame vpn a.data_frames }, m')
release_frame identical a m vpn = returns (a, m)
release_frame (linear pn_offset) a m vpn = returns (a, m)

pub unmap_one : MapArea → PageTable → Memory → ℕ → Outcome (MapArea × Memory)
unmap_one a t m vpn = do
  r ← release_frame a.map_type a m vpn
  m' ← unmap t r.1 vpn
  returns (r.0, m')

-- The loops over `n` pages from `vpn` on.
pub map_from : ℕ → MapArea → PageTable → Memory → ℕ → Outcome Mapping
map_from zero a t m vpn = returns (a, t, m)
map_from (suc n) a t m vpn = map_one a t m vpn >>= λ r. map_from n r.0 r.1 r.2 (vpn + 1)

pub unmap_from : ℕ → MapArea → PageTable → Memory → ℕ → Outcome (MapArea × Memory)
unmap_from zero a t m vpn = returns (a, m)
unmap_from (suc n) a t m vpn = unmap_one a t m vpn >>= λ r. unmap_from n r.0 t r.1 (vpn + 1)

-- The number of pages of a range; `SimpleRange::new` has its start not after its end.
abbrev pub pages : SimpleRange → ℕ
pages r = r.r - r.l

-- `MapArea::map` and `MapArea::unmap`
pub map_area : MapArea → PageTable → Memory → Outcome Mapping
map_area a t m = map_from (pages a.vpn_range) a t m a.vpn_range.l

pub unmap_area : MapArea → PageTable → Memory → Outcome (MapArea × Memory)
unmap_area a t m = unmap_from (pages a.vpn_range) a t m a.vpn_range.l

pub record MemorySet : Type 0 where
  pub page_table : PageTable
  pub areas : List MapArea

pub new_bare : Memory → Outcome (MemorySet × Memory)
new_bare m = do r ← new m; returns (record { page_table = r.0; areas = [] }, r.1)

-- `push`, of an area without data.
pub push : MemorySet → Memory → MapArea → Outcome (MemorySet × Memory)
push s m a = do
  r ← map_area a s.page_table m
  returns (record { page_table = r.1; areas = s.areas ++ (r.0 ∷ []) }, r.2)

pub insert_framed_area : MemorySet → Memory → ℕ → ℕ → ℕ → Outcome (MemorySet × Memory)
insert_framed_area s m start_va end_va map_perm = do
  a ← new_area start_va end_va framed map_perm
  push s m a

-- The area that starts at `start_vpn` is unmapped, taken out and dropped, if there is one.
pub remove_area : List MapArea → PageTable → Memory → ℕ → Outcome (List MapArea × Memory)
remove_area [] t m start_vpn = returns ([], m)
remove_area (a ∷ areas) t m start_vpn =
    if a.vpn_range.l == start_vpn
    then (unmap_area a t m >>= λ r. (drop_frames r.1 r.0.data_frames >>= λ m'. returns (areas, m')))
    else (remove_area areas t m start_vpn >>= λ r. returns (a ∷ r.0, r.1))

pub remove_area_with_start_vpn : MemorySet → Memory → ℕ → Outcome (MemorySet × Memory)
remove_area_with_start_vpn s m start_vpn = do
  r ← remove_area s.areas s.page_table m start_vpn
  returns (record s { areas = r.0 }, r.1)

-- Dropping areas, in their order.
pub drop_areas : List MapArea → Memory → Outcome Memory
drop_areas [] m = returns m
drop_areas (a ∷ areas) m = drop_frames m a.data_frames >>= λ m'. drop_areas areas m'

pub recycle_data_pages : MemorySet → Memory → Outcome (MemorySet × Memory)
recycle_data_pages s m = do m' ← drop_areas s.areas m; returns (record s { areas = [] }, m')

-- The virtual address `TRAMPOLINE` and the physical one of `strampoline`, of which both are pages.
pub map_trampoline : ℕ → ℕ → MemorySet → Memory → Outcome (MemorySet × Memory)
map_trampoline trampoline strampoline s m = do
  vpn ← page_num (to_virt_addr trampoline)
  ppn ← page_num (to_phys_addr strampoline)
  r ← map s.page_table m vpn ppn (bit_or flag_r flag_x)
  returns (record s { page_table = r.0 }, r.1)

-- `dst.get_bytes_array().copy_from_slice(src.get_bytes_array())`
pub copy_page : Memory → ℕ → ℕ → Memory
copy_page m src dst = record m {
  entries = λ p i. if p == dst then m.entries src i else m.entries p i;
}

-- The copies of `n` pages from `vpn` on, from one address space to another.
pub copy_pages : ℕ → PageTable → PageTable → Memory → ℕ → Outcome Memory
copy_pages zero from to m vpn = returns m
copy_pages (suc n) from to m vpn = unwrap (translate from m vpn) >>= λ src.
    (unwrap (translate to m vpn) >>= λ dst.
    copy_pages n from to (copy_page m (pte_ppn src) (pte_ppn dst)) (vpn + 1))

pub copy_area : PageTable → MemorySet → Memory → MapArea → Outcome (MemorySet × Memory)
copy_area from s m area = do
  r ← push s m (from_another area)
  m' ← copy_pages (pages area.vpn_range) from r.0.page_table r.1 area.vpn_range.l
  returns (r.0, m')

pub copy_areas : PageTable → MemorySet → Memory → List MapArea → Outcome (MemorySet × Memory)
copy_areas from s m [] = returns (s, m)
copy_areas from s m (a ∷ areas) = copy_area from s m a >>= λ r. copy_areas from r.0 r.1 areas

pub from_existed_user : ℕ → ℕ → MemorySet → Memory → Outcome (MemorySet × Memory)
from_existed_user trampoline strampoline user_space m = do
  r ← new_bare m
  s ← map_trampoline trampoline strampoline r.0 r.1
  copy_areas user_space.page_table s.0 s.1 user_space.areas

-- `MemorySet::map` and `MemorySet::unmap`
pub map_page : MemorySet → Memory → ℕ → ℕ → ℕ → Outcome (MemorySet × Memory)
map_page s m vpn ppn map_perm = do
  r ← map s.page_table m vpn ppn map_perm
  returns (record s { page_table = r.0 }, r.1)

pub unmap_page : MemorySet → Memory → ℕ → Outcome Memory
unmap_page s m vpn = unmap s.page_table m vpn
