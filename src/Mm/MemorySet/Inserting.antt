-- ===== src/Mm/MemorySet/Inserting.antt =====
-- A framed area put into an address space.
use rcore_os.Prelude.{
  ℕ, ◌-◌, ◌*◌, ◌^◌, ◌≤◌, ◌<◌, ◌≡◌, ◌⊎◌, refl, true, List, [], ◌∷◌, ◌++◌, none, mem, length,
  Distinct, Outcome, returns, arith, le→leb, inl, inr,
}
use rcore_os.Mm.Address.{simple_range, floor, ceil}
use rcore_os.Mm.FrameAllocator.Free.{is_free}
use rcore_os.Mm.PageTable.{Memory}
use rcore_os.Mm.PageTable.Tree.{Place, IsTree}
use rcore_os.Mm.PageTable.Extends.{Extends}
use rcore_os.Mm.PageTable.Lookup.{lookup}
use rcore_os.Mm.MemorySet.{
  MapArea, framed, get_frame, MemorySet, new_area, map_area, push, insert_framed_area,
}
use rcore_os.Mm.MemorySet.Supply.{Supply}
use rcore_os.Mm.MemorySet.Filling.{IsBacked, IsSorted, map_from-MapsAll}

abbrev pub empty_area : ℕ → ℕ → ℕ → MapArea
empty_area s e perm = record {
  vpn_range = record { l = s; r = e };
  data_frames = [];
  map_type = framed;
  map_perm = perm;
}

-- What inserting an area of the pages from `s` on and before `e` has to deliver: frames that were
-- free, all different, one for each page.
pub record Inserts (set : MemorySet) (m : Memory) (place : ℕ → Place) (s e perm : ℕ)
    (o : Outcome (MemorySet × Memory)) : Type 0 where
  pub set' : MemorySet
  pub memory : Memory
  pub place' : ℕ → Place
  pub area : MapArea
  pub fs : List ℕ
  pub is : o ≡ returns (set', memory)
  pub areas : set'.areas ≡ set.areas ++ (area ∷ [])
  pub range : area.vpn_range ≡ record { l = s; r = e }
  pub root_same : set'.page_table.root_ppn ≡ set.page_table.root_ppn
  pub tree : IsTree set.page_table.root_ppn memory place'
  pub count : length fs ≡ e - s
  pub distinct : Distinct fs
  pub fresh : (f : ℕ) → mem f fs ≡ true → is_free m.allocator f ≡ true
  pub backed : IsBacked set'.page_table memory place' area.data_frames perm s fs
  pub blank : (f k : ℕ) → mem f fs ≡ true → memory.entries f k ≡ 0
  pub sorted : IsSorted area.data_frames
  pub confined : (p : ℕ) → (p < s) ⊎ (e ≤ p) → get_frame area.data_frames p ≡ none
  pub framed_area : area.map_type ≡ framed
  pub perm_kept : area.map_perm ≡ perm
  pub others :
      (p : ℕ)
      → p < 2 ^ 27
      → (p < s) ⊎ (e ≤ p)
      → lookup set'.page_table memory p ≡ lookup set.page_table m p
  pub taken : List ℕ
  pub threes : length taken ≡ 3 * (e - s)
  pub extends : Extends m place memory place' taken

new_area_framed :
    (start_va end_va perm : ℕ)
    → floor start_va ≤ ceil end_va
    → new_area start_va end_va framed perm
      ≡ returns (empty_area (floor start_va) (ceil end_va) perm)
unfolding new_area simple_range
new_area_framed start_va end_va perm h = rw (le→leb (floor start_va) (ceil end_va) h) refl

-- `insert_framed_area` of pages that are not mapped, with three frames free for each page, does not
-- panic. Each page from that of the start on and before that of the end is then mapped, with the
-- permissions and V, to a frame of its own, which was free and holds zeros, and the area that is
-- added at the end of the areas keeps it under the page. Every other page is translated as before,
-- the table is a tree still, frames in use stay in use, and those outside the table keep their
-- content.
pub insert_framed_area-Inserts :
    (set : MemorySet) (m : Memory) (place : ℕ → Place) (start_va end_va perm : ℕ)
    → IsTree set.page_table.root_ppn m place
    → floor start_va ≤ ceil end_va
    → ceil end_va ≤ 2 ^ 27
    → perm < 2 ^ 8
    → Supply m.allocator (3 * (ceil end_va - floor start_va))
    → ((p : ℕ) → floor start_va ≤ p → p < ceil end_va → lookup set.page_table m p ≡ none)
    → Inserts set m place
        (floor start_va)
        (ceil end_va)
        perm
        (insert_framed_area set m start_va end_va perm)
unfolding insert_framed_area push map_area
insert_framed_area-Inserts set m place start_va end_va perm tree order small perm_small supply
      unmapped =
    let s = floor start_va in
    let e = ceil end_va in
    let r =
      map_from-MapsAll (e - s) (empty_area s e perm) set.page_table m place s refl perm_small
        (λ p h. refl) tree (omega arith) supply (λ p h l. unmapped p h (omega arith)) in
    record {
      set' = record {
        page_table = r.table;
        areas = set.areas ++ (record (empty_area s e perm) { data_frames = r.kept } ∷ []);
      };
      memory = r.memory;
      place' = r.place';
      area = record (empty_area s e perm) { data_frames = r.kept };
      fs = r.fs;
      is = rw (new_area_framed start_va end_va perm order, r.is) refl;
      areas = refl;
      range = refl;
      root_same = r.root_same;
      tree = r.tree;
      count = r.count;
      distinct = r.distinct;
      fresh = r.fresh;
      backed = r.backed;
      blank = r.blank;
      sorted = r.sorted tt;
      confined = λ p o. elim o [ inl b ↦ r.earlier p b | inr b ↦ r.later p (omega arith) ];
      framed_area = refl;
      perm_kept = refl;
      others = λ p h o. r.others p h (elim o [ inl b ↦ inl b | inr b ↦ inr (omega arith) ]);
      taken = r.taken;
      threes = r.threes;
      extends = r.extends;
    }
