-- ===== src/Task/Mmap/Handlers.antt =====
-- `handle_page_fault` and `sys_munmap`, up to where a range of a file is read or written.
use mathlib.Core.Option
use rcore_os.Prelude.{
  ℕ, zero, suc, ◌+◌, ◌-◌, Bool, true, false, not, ◌&&◌, ◌||◌, List, [], ◌∷◌, Option, none, some,
  if◌then◌else◌, leb, ◌==◌, Outcome, returns, ◌>>=◌, add_usize,
}
use rcore_os.Mm.Address.{
  SimpleRange, contains, simple_range, floor, ceil, to_virt_addr, page_addr, page_offset,
}
use rcore_os.Mm.PageTable.{Memory, PageTable, translate, is_valid, unmap}
use rcore_os.Mm.MemorySet.{insert_framed_area, pages}
use rcore_os.Task.Mmap.{MapType, memory, file, Reserve, Process, valid_entry, va_max}

-- What became of it; `of_file` is where the code of a file's range begins, which is not modelled.
pub data Answer : Type 0 where
  refused done of_file : Answer

abbrev pub Result : Type 0
Result = Answer × Process × Memory

-- The first reserve with the page.
unfoldable pub find_reserve : List Reserve → ℕ → Option Reserve
find_reserve [] vpn = none
find_reserve (v ∷ vs) vpn = if contains v.range vpn then some v else find_reserve vs vpn

unfoldable pub fault_in : MapType → Reserve → Process → Memory → Outcome Result
fault_in memory v p m = do
  r ← insert_framed_area p.memory_set m (page_addr v.range.l) (page_addr v.range.r) v.perm
  returns (done, record p { memory_set = r.0 }, r.1)
fault_in file v p m = returns (of_file, p, m)

unfoldable pub fault_at : Option Reserve → Process → Memory → Outcome Result
fault_at none p m = returns (refused, p, m)
fault_at (some v) p m = fault_in v.ty v p m

unfoldable pub handle_page_fault : Process → Memory → ℕ → Outcome Result
handle_page_fault p m fault_addr =
    if valid_entry (translate p.memory_set.page_table m (floor (to_virt_addr fault_addr)))
    then returns (refused, p, m)
    else fault_at (find_reserve p.mmap_mapped (floor (to_virt_addr fault_addr))) p m

-- `iter().position(|v| v.range == vpn_range)`
unfoldable pub position_of : List Reserve → SimpleRange → Option (ℕ × Reserve)
position_of [] r = none
position_of (v ∷ vs) r =
    if (v.range.l == r.l) && (v.range.r == r.r)
    then some (0, v)
    else Option.map (λ x. (suc x.0, x.1)) (position_of vs r)

-- `Vec::remove`
abbrev pub remove_at : ℕ → List Reserve → List Reserve
remove_at i [] = []
remove_at zero (v ∷ vs) = vs
remove_at (suc i) (v ∷ vs) = v ∷ remove_at i vs

-- A page of memory that is unmapped, if the walk ends at an entry; `false` is the return of -1.
unfoldable pub unmap_entry : Option ℕ → PageTable → Memory → ℕ → Outcome (Bool × Memory)
unmap_entry none t m vpn = returns (true, m)
unmap_entry (some pte) t m vpn =
    if is_valid pte then (unmap t m vpn >>= λ m'. returns (true, m')) else returns (false, m)

-- The loop over `n` pages.
unfoldable pub unmap_pages : ℕ → PageTable → Memory → ℕ → Outcome (Bool × Memory)
unmap_pages zero t m vpn = returns (true, m)
unmap_pages (suc n) t m vpn = unmap_entry (translate t m vpn) t m vpn >>= λ r.
    (if r.0 then unmap_pages n t r.1 (vpn + 1) else returns (false, r.1))

unfoldable pub munmap_done : Process → ℕ → Bool × Memory → Result
munmap_done p i r =
    if r.0
    then (done, record p { mmap_mapped = remove_at i p.mmap_mapped }, r.1)
    else (refused, p, r.1)

unfoldable pub munmap_in : MapType → ℕ → Process → Memory → SimpleRange → Outcome Result
munmap_in memory i p m r =
    unmap_pages (pages r) p.memory_set.page_table m r.l >>= λ u. returns (munmap_done p i u)
munmap_in file i p m r = returns (of_file, p, m)

unfoldable pub munmap_at : Option (ℕ × Reserve) → Process → Memory → SimpleRange → Outcome Result
munmap_at none p m r = returns (refused, p, m)
munmap_at (some v) p m r = munmap_in v.1.ty v.0 p m r

-- The range is that of the addresses from `VirtAddr::from(start)` on and before
-- `VirtAddr::from(start + len)`.
unfoldable pub munmap_range : ℕ → ℕ → Outcome SimpleRange
munmap_range start len =
    simple_range (floor (to_virt_addr start)) (ceil (to_virt_addr (add_usize start len)))

unfoldable pub sys_munmap : Process → Memory → ℕ → ℕ → Outcome Result
sys_munmap p m start len =
    if not (page_offset start == 0) || leb (va_max - len) start
    then returns (refused, p, m)
    else (munmap_range start len >>= λ r. munmap_at (position_of p.mmap_mapped r) p m r)
