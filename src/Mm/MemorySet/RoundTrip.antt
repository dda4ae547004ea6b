-- ===== src/Mm/MemorySet/RoundTrip.antt =====
-- An area that is inserted and taken out again.
use rcore_os.Prelude.{
  ℕ, ◌-◌, ◌*◌, ◌^◌, ◌≤◌, ◌<◌, ◌≡◌, ◌≢◌, ◌⊎◌, refl, ap, sym, subst, ◌∙◌, true, false, [], ◌++◌, none,
  All, append-nil, Outcome, returns, ◌>>=◌, arith, inl, inr,
}
use rcore_os.Mm.Address.{floor, ceil}
use rcore_os.Mm.FrameAllocator.{StackFrameAllocator}
use rcore_os.Mm.FrameAllocator.Free as Free
use rcore_os.Mm.FrameAllocator.Free.{is_free, mem-below}
use rcore_os.Mm.PageTable.{Memory}
use rcore_os.Mm.PageTable.Tree.{Place, outside, IsTree}
use rcore_os.Mm.PageTable.Lookup.{lookup}
use rcore_os.Mm.MemorySet.{MemorySet, remove_area_with_start_vpn, insert_framed_area}
use rcore_os.Mm.MemorySet.Supply.{Supply}
use rcore_os.Mm.MemorySet.Filling.{IsBacked, not_among}
use rcore_os.Mm.MemorySet.Inserting.{Inserts, insert_framed_area-Inserts}
use rcore_os.Mm.MemorySet.Removing.{Holds, remove_area_with_start_vpn-Removes}

free_in_range : (a : StackFrameAllocator) (n : ℕ) → Free.IsValid a → is_free a n ≡ true → n < a.end
free_in_range a n v h =
    let inside = v.within in ground (arith, mem-below a.recycled n a.current v.below)

-- An area is inserted, and the area that starts where it does is removed.
abbrev pub inserted_and_removed : MemorySet → Memory → ℕ → ℕ → ℕ → Outcome (MemorySet × Memory)
inserted_and_removed set m start_va end_va perm = do
  r ← insert_framed_area set m start_va end_va perm
  remove_area_with_start_vpn r.0 r.1 (floor start_va)

-- What this has to deliver, for the pages from `s` on and before `e`.
pub record Restores (set : MemorySet) (m : Memory) (place : ℕ → Place) (s e : ℕ)
    (o : Outcome (MemorySet × Memory)) : Type 0 where
  pub set' : MemorySet
  pub memory : Memory
  pub place' : ℕ → Place
  pub is : o ≡ returns (set', memory)
  pub areas : set'.areas ≡ set.areas
  pub root_same : set'.page_table.root_ppn ≡ set.page_table.root_ppn
  pub tree : IsTree set.page_table.root_ppn memory place'
  pub gone : (p : ℕ) → s ≤ p → p < e → lookup set'.page_table memory p ≡ none
  pub others :
      (p : ℕ)
      → p < 2 ^ 27
      → (p < s) ⊎ (e ≤ p)
      → lookup set'.page_table memory p ≡ lookup set.page_table m p
  pub busy : (x : ℕ) → is_free m.allocator x ≡ false → is_free memory.allocator x ≡ false
  pub untouched :
      (x k : ℕ)
      → is_free m.allocator x ≡ false
      → place x ≡ outside
      → memory.entries x k ≡ m.entries x k

pub Inserts-Holds :
    (set : MemorySet) (m : Memory) (place : ℕ → Place) (s e perm : ℕ)
    (o : Outcome (MemorySet × Memory)) (i : Inserts set m place s e perm o)
    → Free.IsValid m.allocator
    → s ≤ e
    → e ≤ 2 ^ 27
    → Holds i.set'.page_table i.memory i.place' i.area i.fs
Inserts-Holds set m place s e perm o i v order small =
    let count = i.count in
    let limit = i.extends.limit in
    let start : i.area.vpn_range.l ≡ s = ap (λ r. r.l) i.range in
    let pages : i.area.vpn_range.r ≡ e = ap (λ r. r.r) i.range in
    record {
      is_framed = i.framed_area;
      sorted = i.sorted;
      count = omega arith;
      small = omega arith;
      distinct = i.distinct;
      low = λ f h. let below = free_in_range m.allocator f v (i.fresh f h) in omega arith;
      backed =
          subst
            (λ n.
              IsBacked i.set'.page_table i.memory i.place' i.area.data_frames i.area.map_perm n
                i.fs)
            (sym start)
            (subst (λ k. IsBacked i.set'.page_table i.memory i.place' i.area.data_frames k s i.fs)
              (sym i.perm_kept) i.backed);
      confined =
          λ p o. i.confined p (elim o [ inl b ↦ inl (omega arith) | inr b ↦ inr (omega arith) ]);
    }

-- Inserting a framed area into an address space, as for `insert_framed_area`, where no area starts at
-- its first page, and removing the area that starts there, does not panic and gives back the areas
-- of before: no page of the area is mapped, and every other page is translated as before. Frames
-- that were in use stay in use, and those outside the table keep their content.
pub insert-remove-Restores :
    (set : MemorySet) (m : Memory) (place : ℕ → Place) (start_va end_va perm : ℕ)
    → IsTree set.page_table.root_ppn m place
    → floor start_va ≤ ceil end_va
    → ceil end_va ≤ 2 ^ 27
    → perm < 2 ^ 8
    → Supply m.allocator (3 * (ceil end_va - floor start_va))
    → ((p : ℕ) → floor start_va ≤ p → p < ceil end_va → lookup set.page_table m p ≡ none)
    → All (λ b. b.vpn_range.l ≢ floor start_va) set.areas
    → Restores set m place
        (floor start_va)
        (ceil end_va)
        (inserted_and_removed set m start_va end_va perm)
insert-remove-Restores set m place start_va end_va perm tree order small perm_small supply unmapped
      new =
    let s = floor start_va in
    let e = ceil end_va in
    let i =
      insert_framed_area-Inserts set m place start_va end_va perm tree order small perm_small supply
        unmapped in
    let start : i.area.vpn_range.l ≡ s = ap (λ r. r.l) i.range in
    let count = i.count in
    let r =
      remove_area_with_start_vpn-Removes i.set' i.memory i.place' set.areas [] i.area i.fs i.areas
        (subst (λ n. All (λ b. b.vpn_range.l ≢ n) set.areas) (sym start) new)
        (subst (λ n. IsTree n i.memory i.place') (sym i.root_same) i.tree)
        (Inserts-Holds set m place s e perm (insert_framed_area set m start_va end_va perm) i
          tree.frames order small) in
    record {
      set' = record i.set' { areas = set.areas ++ [] };
      memory = r.memory;
      place' = i.place';
      is = rw i.is (ap (λ n. remove_area_with_start_vpn i.set' i.memory n) (sym start) ∙ r.is);
      areas = append-nil set.areas;
      root_same = i.root_same;
      tree = subst (λ n. IsTree n r.memory i.place') i.root_same r.tree;
      gone = λ p h l. r.gone p (omega arith) (omega arith);
      others = λ p h o.
          r.others p h (elim o [ inl b ↦ inl (omega arith) | inr b ↦ inr (omega arith) ])
          ∙ i.others p h o;
      busy = λ x h. r.frees x ∙ rw (i.extends.busy x h, not_among x i.fs m h i.fresh) refl;
      untouched =
          λ x k h o. r.untouched x k (i.extends.stays x h ∙ o) ∙ i.extends.untouched x k h o;
    }
