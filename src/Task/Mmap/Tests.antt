-- ===== src/Task/Mmap/Tests.antt =====
-- A program that reserves memory, touches it and gives it up.
use rcore_os.Prelude.{
  ℕ, ◌+◌, ◌*◌, ◌≤◌, ◌<◌, ◌≡◌, ◌≢◌, refl, sym, ◌∙◌, ap, true, false, [], ◌∷◌, none, some, arith,
  panics, returns, if◌then◌else◌, ◌==◌, ◌&&◌,
}
use rcore_os.Mm.Address.{
  SimpleRange, simple_range, floor, ceil, to_virt_addr, to_phys_page_num, page_addr, page_offset,
  contains, overlap_with,
}
use rcore_os.Mm.FrameAllocator.Free as Free
use rcore_os.Mm.PageTable.{Memory, is_valid, pte_ppn}
use rcore_os.Mm.PageTable.Tree.{Place, outside, root, middle, last, IsTree}
use rcore_os.Mm.PageTable.Lookup.{lookup, lookup-view}
use rcore_os.Mm.PageTable.Fresh.{alone}
use rcore_os.Mm.MemorySet.Supply.{Supply}
use rcore_os.Task.Mmap.{
  Reserve, Process, memory, reserve, start_of, range_of, vpn_range_free, permission_of, sys_mmap,
  do_mmap_memory, bad_prot, bad_fixed, reserve_memory, va_max, alloc,
}
use rcore_os.Task.Mmap.Ranges.{IsPages, vpn_range_free_iff}
use rcore_os.Task.Mmap.Handlers.{position_of, munmap_range, sys_munmap}
use rcore_os.Task.Mmap.Histories.{reserve_at, start, mmaps, Reach-reserves_apart}
use rcore_os.Task.Mmap.Faulting.{Provides, do_mmap_memory-Provides}
use rcore_os.Task.Mmap.Unmapping.{Releases, sys_munmap-Releases}
use rcore_os.Task.Mmap.Overflow.{sys_mmap-panics}

-- The frames 4 to 9 are free, and all memory is zero.
abbrev zeros : Memory
zeros = record { allocator = record { current = 4; end = 10; recycled = [] }; entries = λ p i. 0 }

zeros-IsValid : Free.IsValid zeros.allocator
zeros-IsValid = record { within = omega arith; small = omega arith; below = tt; distinct = tt }

abbrev fresh : Process
fresh = record {
  memory_set = record { page_table = record { root_ppn = 3; frames = 3 ∷ [] }; areas = [] };
  fd_table = [];
  mmap_mapped = [];
  mmap_va_allocator = 0x10000000;
  file_mappings = [];
}

fresh-IsTree : IsTree 3 zeros (alone 3)
unfolding is_valid
fresh-IsTree = record {
  frames = zeros-IsValid;
  top = refl;
  down = λ p i q inside l. absurd (let bad : none ≡ some q = l in cc);
  used = λ p f. ground arith;
}

fresh_empty : (p : ℕ) → lookup fresh.memory_set.page_table zeros p ≡ none
unfolding is_valid
fresh_empty p = lookup-view fresh.memory_set.page_table zeros p ∙ refl

six_frames : Supply zeros.allocator 6
six_frames = record {
  frames = 4 ∷ 5 ∷ 6 ∷ 7 ∷ 8 ∷ 9 ∷ [];
  distinct = (refl, (refl, (refl, (refl, (refl, (refl, tt))))));
  free = λ x h. ground arith;
  enough = omega arith;
}

-- Two pages from the page `l` on.
abbrev two : ℕ → SimpleRange
two l = record { l = l; r = l + 2 }

range_10000 : range_of 0x10000000 0x2000 ≡ returns (two 0x10000)
unfolding range_of simple_range floor ceil to_virt_addr
range_10000 = refl

range_20000 : range_of 0x20000000 0x2000 ≡ returns (two 0x20000)
unfolding range_of simple_range floor ceil to_virt_addr
range_20000 = refl

first_free : vpn_range_free fresh zeros (two 0x10000) ≡ true
first_free =
    (vpn_range_free_iff fresh zeros (two 0x10000) (omega arith)).1 (tt, λ q h l. fresh_empty q)

provided :
    Provides fresh zeros (alone 3) (two 0x10000) 22 (do_mmap_memory fresh zeros 0 0x2000 22 0)
unfolding start_of alloc
provided =
    (do_mmap_memory-Provides fresh zeros (alone 3) 0 0x2000 22 0 (two 0x10000) tt fresh-IsTree
        (omega arith) six_frames range_10000).0
      first_free

do_mmap_memory-Provides_example :
    Provides fresh zeros (alone 3) (two 0x10000) 22 (do_mmap_memory fresh zeros 0 0x2000 22 0)
unfolding start_of alloc
do_mmap_memory-Provides_example =
    (do_mmap_memory-Provides fresh zeros (alone 3) 0 0x2000 22 0 (two 0x10000) tt fresh-IsTree
        (omega arith) six_frames range_10000).0
      first_free

sys_mmap-panics_example : sys_mmap fresh zeros (0x7ffffff000) 0x2000 3 2 0 0 ≡ panics
unfolding page_offset bad_prot
sys_mmap-panics_example =
    sys_mmap-panics fresh zeros (0x7ffffff000) 0x2000 3 2 0 0 refl refl refl refl (omega arith)
      (omega arith) (omega arith)

-- After a call of `mmap` at 0x10000000, and after another one at 0x20000000.
abbrev one_reserve : Process
one_reserve = reserve fresh (two 0x10000) (permission_of 3) memory

abbrev two_reserves : Process
two_reserves = reserve one_reserve (two 0x20000) (permission_of 3) memory

first_call :
    sys_mmap fresh zeros 0x10000000 0x2000 3 2 0 0 ≡ returns (some (page_addr 0x10000), one_reserve)
unfolding sys_mmap do_mmap_memory reserve_memory start_of bad_fixed bad_prot page_offset
    to_virt_addr va_max
first_call = rw (range_10000, first_free) refl

second_free : vpn_range_free one_reserve zeros (two 0x20000) ≡ true
unfolding reserve overlap_with
second_free =
    (vpn_range_free_iff one_reserve zeros (two 0x20000) (omega arith)).1
      ((refl, tt), λ q h l. fresh_empty q)

second_call :
    sys_mmap one_reserve zeros 0x20000000 0x2000 3 2 0 0
    ≡ returns (some (page_addr 0x20000), two_reserves)
unfolding sys_mmap do_mmap_memory reserve_memory start_of bad_fixed bad_prot page_offset
    to_virt_addr va_max
second_call = rw (range_20000, second_free) refl

Reach-reserves_apart_example :
    IsPages (two 0x10000)
    × ((j : ℕ) (w : Reserve) (vpn : ℕ)
        → j ≢ 0
        → reserve_at two_reserves.mmap_mapped j ≡ some w
        → contains (two 0x10000) vpn ≡ true
        → contains w.range vpn ≡ false)
unfolding reserve
Reach-reserves_apart_example =
    Reach-reserves_apart fresh two_reserves zeros zeros 0
      (record { range = two 0x10000; perm = permission_of 3; ty = memory }) refl
      (mmaps one_reserve two_reserves zeros 0x20000000 0x2000 3 2 0 0 (some (page_addr 0x20000))
        (mmaps fresh one_reserve zeros 0x10000000 0x2000 3 2 0 0 (some (page_addr 0x10000)) start
          first_call)
        second_call)
      refl

-- The page 0x1234, mapped by the tables 11 and 12, and reserved.
abbrev one_mapped : Memory
one_mapped = record zeros {
  entries = λ p i.
      if (p == 3) && (i == 0)
      then 11 * 1024 + 1
      else if (p == 11) && (i == 9)
      then 12 * 1024 + 1
      else if (p == 12) && (i == 0x34)
      then 77 * 1024 + 3
      else 0;
}

abbrev places : ℕ → Place
places p =
    if p == 3 then root else if p == 11 then middle 0 else if p == 12 then last 0 9 else outside

one_mapped-IsTree : IsTree 3 one_mapped places
unfolding is_valid pte_ppn to_phys_page_num
one_mapped-IsTree = record {
  frames = zeros-IsValid;
  top = refl;
  down = λ p i q inside l. ground arith;
  used = λ p f. ground arith;
}

abbrev one_page : SimpleRange
one_page = record { l = 0x1234; r = 0x1235 }

abbrev touched : Process
touched = record fresh { mmap_mapped = record { range = one_page; perm = 22; ty = memory } ∷ [] }

page_found : lookup touched.memory_set.page_table one_mapped 0x1234 ≡ some (77 * 1024 + 3)
unfolding is_valid pte_ppn to_phys_page_num
page_found = lookup-view touched.memory_set.page_table one_mapped 0x1234 ∙ refl

one_page_mapped :
    (q : ℕ) → 0x1234 ≤ q → q < 0x1235 → lookup touched.memory_set.page_table one_mapped q ≢ none
one_page_mapped q h l e =
    let same : 0x1234 ≡ q = omega arith in
    let bad : some (77 * 1024 + 3) ≡ none =
      sym page_found ∙ ap (lookup touched.memory_set.page_table one_mapped) same ∙ e in
    cc

sys_munmap-Releases_example :
    Releases touched one_mapped places 0 one_page (sys_munmap touched one_mapped 0x1234000 0x1000)
unfolding page_offset va_max munmap_range simple_range floor ceil to_virt_addr position_of
sys_munmap-Releases_example =
    (sys_munmap-Releases touched one_mapped places 0x1234000 0x1000 0 one_page
        (record { range = one_page; perm = 22; ty = memory }) one_mapped-IsTree
        (record { order = omega arith; small = omega arith }) refl (omega arith) refl refl refl).0
      one_page_mapped
