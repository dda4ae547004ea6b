-- ===== src/Mm/MemorySet/Tests.antt =====
-- An area of two pages put into an address space that has nothing but the root of its table.
use rcore_os.Prelude.{ℕ, ◌≡◌, refl, sym, subst, ◌∙◌, [], ◌∷◌, none, some, arith, ◌+◌}
use rcore_os.Mm.Address.{floor, ceil}
use rcore_os.Mm.FrameAllocator.Free as Free
use rcore_os.Mm.PageTable.{Memory, is_valid}
use rcore_os.Mm.PageTable.Tree.{IsTree}
use rcore_os.Mm.PageTable.Lookup.{lookup, lookup-view}
use rcore_os.Mm.PageTable.Fresh.{alone}
use rcore_os.Mm.MemorySet.{
  MemorySet, permission_r, permission_w, permission_u, insert_framed_area,
  remove_area_with_start_vpn,
}
use rcore_os.Mm.MemorySet.Supply.{Supply}
use rcore_os.Mm.MemorySet.Inserting.{Inserts, insert_framed_area-Inserts}
use rcore_os.Mm.MemorySet.Removing.{Removes, remove_area_with_start_vpn-Removes}
use rcore_os.Mm.MemorySet.RoundTrip.{
  Restores, Inserts-Holds, inserted_and_removed, insert-remove-Restores,
}

-- The frames 4 to 9 are free, and all memory is zero.
abbrev zeros : Memory
zeros = record { allocator = record { current = 4; end = 10; recycled = [] }; entries = λ p i. 0 }

zeros-IsValid : Free.IsValid zeros.allocator
zeros-IsValid = record { within = omega arith; small = omega arith; below = tt; distinct = tt }

abbrev space : MemorySet
space = record { page_table = record { root_ppn = 3; frames = 3 ∷ [] }; areas = [] }

space-IsTree : IsTree 3 zeros (alone 3)
unfolding is_valid
space-IsTree = record {
  frames = zeros-IsValid;
  top = refl;
  down = λ p i q inside l. absurd (let bad : none ≡ some q = l in cc);
  used = λ p f. ground arith;
}

space_empty : (p : ℕ) → lookup space.page_table zeros p ≡ none
unfolding is_valid
space_empty p = lookup-view space.page_table zeros p ∙ refl

six_frames : Supply zeros.allocator 6
six_frames = record {
  frames = 4 ∷ 5 ∷ 6 ∷ 7 ∷ 8 ∷ 9 ∷ [];
  distinct = (refl, (refl, (refl, (refl, (refl, (refl, tt))))));
  free = λ x h. ground arith;
  enough = omega arith;
}

abbrev perm : ℕ
perm = permission_r + permission_w + permission_u

two_pages :
    Inserts space zeros (alone 3) 1 3 perm (insert_framed_area space zeros 0x1000 0x3000 perm)
unfolding floor ceil
two_pages =
    insert_framed_area-Inserts space zeros (alone 3) 0x1000 0x3000 perm space-IsTree (omega arith)
      (omega arith) (omega arith) six_frames (λ p h l. space_empty p)

insert_framed_area-Inserts_example :
    Inserts space zeros (alone 3) 1 3 perm (insert_framed_area space zeros 0x1000 0x3000 perm)
unfolding floor ceil
insert_framed_area-Inserts_example =
    insert_framed_area-Inserts space zeros (alone 3) 0x1000 0x3000 perm space-IsTree (omega arith)
      (omega arith) (omega arith) six_frames (λ p h l. space_empty p)

insert-remove-Restores_example :
    Restores space zeros (alone 3) 1 3 (inserted_and_removed space zeros 0x1000 0x3000 perm)
unfolding floor ceil
insert-remove-Restores_example =
    insert-remove-Restores space zeros (alone 3) 0x1000 0x3000 perm space-IsTree (omega arith)
      (omega arith) (omega arith) six_frames (λ p h l. space_empty p) tt

remove_area_with_start_vpn-Removes_example :
    Removes two_pages.set' two_pages.memory two_pages.place' [] two_pages.area.vpn_range.l
      two_pages.fs
      (remove_area_with_start_vpn two_pages.set' two_pages.memory two_pages.area.vpn_range.l)
remove_area_with_start_vpn-Removes_example =
    remove_area_with_start_vpn-Removes two_pages.set' two_pages.memory two_pages.place' [] []
      two_pages.area two_pages.fs two_pages.areas tt
      (subst (λ n. IsTree n two_pages.memory two_pages.place') (sym two_pages.root_same)
        two_pages.tree)
      (Inserts-Holds space zeros (alone 3) 1 3 perm
        (insert_framed_area space zeros 0x1000 0x3000 perm) two_pages zeros-IsValid (omega arith)
        (omega arith))
