-- ===== src/Mm/PageTable/Tests.antt =====
-- A table with nothing but its root, and with one page mapped.
use rcore_os.Prelude.{
  ℕ, ◌≡◌, refl, [], ◌∷◌, none, some, arith, if◌then◌else◌, ◌==◌, bit_or, ◌&&◌, ◌∙◌, ◌*◌, ◌+◌,
}
use rcore_os.Mm.Address.{to_phys_page_num}
use rcore_os.Mm.FrameAllocator.Free as Frames
use rcore_os.Mm.PageTable.{
  Memory, PageTable, map, unmap, new, pte_new, flag_v, flag_r, is_valid, pte_ppn,
}
use rcore_os.Mm.PageTable.Tree.{Place, outside, root, middle, last, IsTree}
use rcore_os.Mm.PageTable.Lookup.{lookup, lookup-view}
use rcore_os.Mm.PageTable.Mapping.{Maps, map-Maps}
use rcore_os.Mm.PageTable.Unmapping.{Unmaps, unmap-Unmaps}
use rcore_os.Mm.PageTable.Fresh.{MakesTable, new-MakesTable, alone}

-- The frames 4 to 9 are free, and all memory is zero.
abbrev zeroed : Memory
zeroed = record { allocator = record { current = 4; end = 10; recycled = [] }; entries = λ p i. 0 }

zeroed-IsValid : Frames.IsValid zeroed.allocator
zeroed-IsValid = record { within = omega arith; small = omega arith; below = tt; distinct = tt }

new-MakesTable_example : MakesTable (new zeroed)
new-MakesTable_example = new-MakesTable zeroed 5 zeroed-IsValid refl

-- A table whose root is the page 3.
abbrev rooted : PageTable
rooted = record { root_ppn = 3; frames = 3 ∷ [] }

rooted-IsTree : IsTree 3 zeroed (alone 3)
unfolding is_valid
rooted-IsTree = record {
  frames = zeroed-IsValid;
  top = refl;
  down = λ p i q inside l. absurd (let bad : none ≡ some q = l in cc);
  used = λ p f. ground arith;
}

nothing_mapped : lookup rooted zeroed 0x1234 ≡ none
unfolding is_valid
nothing_mapped = lookup-view rooted zeroed 0x1234 ∙ refl

map-Maps_example :
    Maps rooted zeroed
      (alone 3)
      0x1234
      (pte_new 77 (bit_or flag_r flag_v))
      (map rooted zeroed 0x1234 77 flag_r)
map-Maps_example =
    (map-Maps rooted zeroed (alone 3) 0x1234 77 flag_r 5 6 rooted-IsTree (omega arith) (omega arith)
        (omega arith) refl refl (λ e. omega arith)).0
      nothing_mapped

-- The page 0x1234, with the indexes 0, 9 and 0x34, mapped by the tables 11 and 12.
abbrev one_mapped : Memory
one_mapped = record zeroed {
  entries = λ p i.
      if (p == 3) && (i == 0)
      then 11 * 1024 + 1
      else if (p == 11) && (i == 9)
      then 12 * 1024 + 1
      else if (p == 12) && (i == 0x34)
      then 77 * 1024 + 3
      else 0;
}

abbrev places : ℕ → Place
places p =
    if p == 3 then root else if p == 11 then middle 0 else if p == 12 then last 0 9 else outside

one_mapped-IsTree : IsTree 3 one_mapped places
unfolding is_valid pte_ppn to_phys_page_num
one_mapped-IsTree = record {
  frames = zeroed-IsValid;
  top = refl;
  down = λ p i q inside l. ground arith;
  used = λ p f. ground arith;
}

page_found : lookup rooted one_mapped 0x1234 ≡ some (77 * 1024 + 3)
unfolding is_valid pte_ppn to_phys_page_num
page_found = lookup-view rooted one_mapped 0x1234 ∙ refl

unmap-Unmaps_example : Unmaps rooted one_mapped places 0x1234 (unmap rooted one_mapped 0x1234)
unmap-Unmaps_example =
    (unmap-Unmaps rooted one_mapped places 0x1234 one_mapped-IsTree (omega arith)).0 (77 * 1024 + 3)
      page_found
