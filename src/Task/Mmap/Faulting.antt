-- ===== src/Task/Mmap/Faulting.antt =====
-- Memory that was reserved is mapped by the first page fault in it.
use rcore_os.Prelude.{
  ℕ, ◌-◌, ◌*◌, ◌^◌, ◌≤◌, ◌<◌, ◌≡◌, refl, sym, ◌∙◌, ap, subst, Bool, true, false, List, [], ◌∷◌,
  ◌++◌, Option, none, some, All, arith, Outcome, returns,
}
use rcore_os.Mm.Address.{SimpleRange, contains, overlap_with, floor, ceil, to_virt_addr, page_addr}
use rcore_os.Mm.PageTable.{Memory, translate}
use rcore_os.Mm.PageTable.Tree.{Place, IsTree}
use rcore_os.Mm.PageTable.Lookup.{lookup}
use rcore_os.Mm.MemorySet.{MemorySet, insert_framed_area}
use rcore_os.Mm.MemorySet.Supply.{Supply}
use rcore_os.Mm.MemorySet.Inserting.{Inserts, insert_framed_area-Inserts}
use rcore_os.Task.Mmap.{
  memory, Reserve, Process, vpn_range_free, map_fixed, start_of, range_of, reserve, reserve_memory,
  do_mmap_memory,
}
use rcore_os.Task.Mmap.Reserving.{AreApart}
use rcore_os.Task.Mmap.Handlers.{done, Result, find_reserve, fault_in, fault_at, handle_page_fault}
use rcore_os.Task.Mmap.Ranges.{
  IsPages, overlap_with-apart, floor-page_addr, ceil-page_addr, vpn_range_free_iff,
  range_of-IsPages, none-valid_entry,
}

-- What a page fault in a range of memory has to deliver: the whole range put into the address space,
-- as `insert_framed_area` does it.
pub record Faults (p : Process) (m : Memory) (place : ℕ → Place) (r : SimpleRange) (perm : ℕ)
    (o : Outcome Result) : Type 0 where
  pub set' : MemorySet
  pub memory' : Memory
  pub is : o ≡ returns (done, record p { memory_set = set' }, memory')
  pub inserts : Inserts p.memory_set m place r.l r.r perm (returns (set', memory'))

contains-bounds : (r : SimpleRange) (vpn : ℕ) → contains r vpn ≡ true → (r.l ≤ vpn) × (vpn < r.r)
unfolding contains
contains-bounds r vpn h = (ground arith, ground arith)

-- `insert_framed_area` of the addresses of two page numbers.
insert_pages :
    (set : MemorySet) (m : Memory) (place : ℕ → Place) (r : SimpleRange) (perm : ℕ)
    → IsPages r
    → IsTree set.page_table.root_ppn m place
    → perm < 2 ^ 8
    → Supply m.allocator (3 * (r.r - r.l))
    → ((q : ℕ) → r.l ≤ q → q < r.r → lookup set.page_table m q ≡ none)
    → Inserts set m place r.l r.r perm
        (insert_framed_area set m (page_addr r.l) (page_addr r.r) perm)
insert_pages set m place r perm pages tree small supply unmapped =
    let order = pages.order in
    let top = pages.small in
    let s = floor-page_addr r.l (omega arith) in
    let e = ceil-page_addr r.r top in
    subst
      (λ b.
        Inserts set m place r.l b perm
          (insert_framed_area set m (page_addr r.l) (page_addr r.r) perm))
      e
      (subst
        (λ a.
          Inserts set m place a (ceil (page_addr r.r)) perm
            (insert_framed_area set m (page_addr r.l) (page_addr r.r) perm))
        s
        (insert_framed_area-Inserts set m place (page_addr r.l) (page_addr r.r) perm tree
          (omega arith) (omega arith) small
          (subst (λ n. Supply m.allocator (3 * n)) (omega arith) supply)
          (λ q h l. unmapped q (omega arith) (omega arith))))

fault_in_memory :
    (p : Process) (m m' : Memory) (v : Reserve) (set' : MemorySet)
    → v.ty ≡ memory
    → insert_framed_area p.memory_set m (page_addr v.range.l) (page_addr v.range.r) v.perm
      ≡ returns (set', m')
    → fault_in v.ty v p m ≡ returns (done, record p { memory_set = set' }, m')
unfolding fault_in
fault_in_memory p m m' v set' ty e = ap (λ t. fault_in t v p m) ty ∙ rw e refl

handle_page_fault_first :
    (p : Process) (m : Memory) (addr : ℕ) (v : Reserve)
    → lookup p.memory_set.page_table m (floor (to_virt_addr addr)) ≡ none
    → find_reserve p.mmap_mapped (floor (to_virt_addr addr)) ≡ some v
    → handle_page_fault p m addr ≡ fault_in v.ty v p m
unfolding handle_page_fault fault_at
handle_page_fault_first p m addr v l f =
    rw (none-valid_entry (translate p.memory_set.page_table m (floor (to_virt_addr addr))) l, f)
      refl

-- A page fault at an address of a reserved range of memory, none of whose pages is mapped, puts the
-- whole range into the address space.
handle_page_fault-Faults :
    (p : Process) (m : Memory) (place : ℕ → Place) (addr : ℕ) (v : Reserve)
    → v.ty ≡ memory
    → IsPages v.range
    → find_reserve p.mmap_mapped (floor (to_virt_addr addr)) ≡ some v
    → contains v.range (floor (to_virt_addr addr)) ≡ true
    → IsTree p.memory_set.page_table.root_ppn m place
    → v.perm < 2 ^ 8
    → Supply m.allocator (3 * (v.range.r - v.range.l))
    → ((q : ℕ) → v.range.l ≤ q → q < v.range.r → lookup p.memory_set.page_table m q ≡ none)
    → Faults p m place v.range v.perm (handle_page_fault p m addr)
handle_page_fault-Faults p m place addr v ty pages found inside tree small supply unmapped =
    let i = insert_pages p.memory_set m place v.range v.perm pages tree small supply unmapped in
    let (low, high) = contains-bounds v.range (floor (to_virt_addr addr)) inside in
    record {
      set' = i.set';
      memory' = i.memory;
      is =
          handle_page_fault_first p m addr v (unmapped (floor (to_virt_addr addr)) low high) found
          ∙ fault_in_memory p m i.memory v i.set' ty i.is;
      inserts = subst (Inserts p.memory_set m place v.range.l v.range.r v.perm) i.is i;
    }

find_reserve-snoc :
    (vs : List Reserve) (w : Reserve) (vpn : ℕ)
    → AreApart vs
    → IsPages w.range
    → All (λ v. overlap_with w.range v.range ≡ false) vs
    → contains w.range vpn ≡ true
    → find_reserve (vs ++ (w ∷ [])) vpn ≡ some w
unfolding find_reserve
find_reserve-snoc [] w vpn a p o c = rw c refl
find_reserve-snoc (v ∷ vs) w vpn a p o c =
    rw (overlap_with-apart w.range v.range vpn p a.0.0 o.0 c)
      (find_reserve-snoc vs w vpn a.1 p o.1 c)

-- What a call of `mmap` for memory has to deliver: the address of its first page, after which a page
-- fault anywhere in the range maps the range.
pub record Provides (p : Process) (m : Memory) (place : ℕ → Place) (r : SimpleRange) (perm : ℕ)
    (o : Outcome (Option ℕ × Process)) : Type 0 where
  pub p' : Process
  pub is : o ≡ returns (some (page_addr r.l), p')
  pub same_space : p'.memory_set ≡ p.memory_set
  pub touched :
      (addr : ℕ)
      → contains r (floor (to_virt_addr addr)) ≡ true
      → Faults p' m place r perm (handle_page_fault p' m addr)

reserve_memory-Provides :
    (p : Process) (m : Memory) (place : ℕ → Place) (r : SimpleRange) (perm : ℕ)
    → AreApart p.mmap_mapped
    → IsPages r
    → IsTree p.memory_set.page_table.root_ppn m place
    → perm < 2 ^ 8
    → Supply m.allocator (3 * (r.r - r.l))
    → vpn_range_free p m r ≡ true
    → Provides p m place r perm (returns (reserve_memory p m perm r))
unfolding reserve_memory reserve
reserve_memory-Provides p m place r perm a pages tree small supply free =
    let (others, unmapped) = (vpn_range_free_iff p m r pages.order).0 free in
    let w : Reserve = record { range = r; perm = perm; ty = memory } in
    record {
      p' = reserve p r perm memory;
      is = rw free refl;
      same_space = refl;
      touched = λ addr inside.
          handle_page_fault-Faults (reserve p r perm memory) m place addr w refl pages
            (find_reserve-snoc p.mmap_mapped w (floor (to_virt_addr addr)) a pages others inside)
            inside tree small supply unmapped;
    }

start_of-Provides :
    (p : Process) (m : Memory) (place : ℕ → Place) (fixed : Bool) (start len perm : ℕ)
    (r : SimpleRange)
    → AreApart p.mmap_mapped
    → IsPages r
    → IsTree p.memory_set.page_table.root_ppn m place
    → perm < 2 ^ 8
    → Supply m.allocator (3 * (r.r - r.l))
    → vpn_range_free p m r ≡ true
    → Provides p m place r perm (returns (reserve_memory (start_of p fixed start len).1 m perm r))
unfolding start_of vpn_range_free
start_of-Provides p m place true start len perm r a pages tree small supply free =
    reserve_memory-Provides p m place r perm a pages tree small supply free
start_of-Provides p m place false start len perm r a pages tree small supply free =
    let k =
      reserve_memory-Provides (start_of p false start len).1 m place r perm a pages tree small
        supply free in
    record { p' = k.p'; is = k.is; same_space = k.same_space; touched = k.touched }

start_of-refuses :
    (p : Process) (m : Memory) (fixed : Bool) (start len perm : ℕ) (r : SimpleRange)
    → vpn_range_free p m r ≡ false
    → reserve_memory (start_of p fixed start len).1 m perm r
      ≡ (none, (start_of p fixed start len).1)
unfolding start_of reserve_memory vpn_range_free
start_of-refuses p m true start len perm r taken = rw taken refl
start_of-refuses p m false start len perm r taken = rw taken refl

do_mmap_memory_lem :
    (p : Process) (m : Memory) (start len perm flags : ℕ) (r : SimpleRange)
    → range_of (start_of p (map_fixed flags) start len).0 len ≡ returns r
    → do_mmap_memory p m start len perm flags
      ≡ returns (reserve_memory (start_of p (map_fixed flags) start len).1 m perm r)
unfolding do_mmap_memory
do_mmap_memory_lem p m start len perm flags r ranged = rw ranged refl

-- `mmap` for memory, of a range of pages that is free, returns the address of the first page of the
-- range and changes neither the address space nor the memory. After that a page fault at any address
-- of the range does not panic, if three frames are free for each page: every page of the range is then
-- mapped, with the permissions and V, to a frame of its own, which was free and holds zeros, and
-- every other page is translated as before. If the range is not free, `mmap` returns -1, and reserves
-- nothing.
pub do_mmap_memory-Provides :
    (p : Process) (m : Memory) (place : ℕ → Place) (start len perm flags : ℕ) (r : SimpleRange)
    → AreApart p.mmap_mapped
    → IsTree p.memory_set.page_table.root_ppn m place
    → perm < 2 ^ 8
    → Supply m.allocator (3 * (r.r - r.l))
    → range_of (start_of p (map_fixed flags) start len).0 len ≡ returns r
    → (vpn_range_free p m r ≡ true
        → Provides p m place r perm (do_mmap_memory p m start len perm flags))
      × (vpn_range_free p m r ≡ false
          → do_mmap_memory p m start len perm flags
            ≡ returns (none, (start_of p (map_fixed flags) start len).1))
do_mmap_memory-Provides p m place start len perm flags r a tree small supply ranged =
    let mapped = do_mmap_memory_lem p m start len perm flags r ranged in
    let s = start_of p (map_fixed flags) start len in
    (
      λ free. subst (Provides p m place r perm) (sym mapped) (
          start_of-Provides p m place (map_fixed flags) start len perm r a
            (range_of-IsPages s.0 len r ranged) tree small supply free),
      λ taken. mapped ∙ ap returns (start_of-refuses p m (map_fixed flags) start len perm r taken),
    )
