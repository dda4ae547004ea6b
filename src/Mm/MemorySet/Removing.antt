-- ===== src/Mm/MemorySet/Removing.antt =====
-- A framed area taken out of an address space.
use rcore_os.Prelude.{
  ℕ, ◌+◌, ◌^◌, ◌≤◌, ◌<◌, ◌≡◌, ◌≢◌, ◌⊎◌, refl, ap, sym, ◌∙◌, true, ◌||◌, List, [], ◌∷◌, ◌++◌, none,
  All, mem, length, Distinct, Outcome, returns, arith, inl, inr, ltb, ==_self, ==_of_ne, Bool-cases,
}
use rcore_os.Mm.FrameAllocator.Free.{is_free}
use rcore_os.Mm.PageTable.{Memory, PageTable}
use rcore_os.Mm.PageTable.Tree.{Place, outside, IsTree}
use rcore_os.Mm.PageTable.Lookup.{lookup}
use rcore_os.Mm.MemorySet.{
  MapArea, framed, get_frame, MemorySet, unmap_area, unmap_from, pages, remove_area,
  remove_area_with_start_vpn, drop_frames,
}
use rcore_os.Mm.MemorySet.Filling.{IsSorted, IsBacked}
use rcore_os.Mm.MemorySet.Releasing.{nothing_kept}
use rcore_os.Mm.MemorySet.Emptying.{unmap_from-Empties}

-- An area that keeps the frames `fs` for its pages, and nothing for other pages.
pub record Holds (t : PageTable) (m : Memory) (place : ℕ → Place) (a : MapArea) (fs : List ℕ)
    : Type 0 where
  pub is_framed : a.map_type ≡ framed
  pub sorted : IsSorted a.data_frames
  pub count : length fs ≡ pages a.vpn_range
  pub small : a.vpn_range.l + length fs ≤ 2 ^ 27
  pub distinct : Distinct fs
  pub low : (f : ℕ) → mem f fs ≡ true → f < m.allocator.end
  pub backed : IsBacked t m place a.data_frames a.map_perm a.vpn_range.l fs
  pub confined :
      (p : ℕ)
      → (p < a.vpn_range.l) ⊎ (a.vpn_range.l + length fs ≤ p)
      → get_frame a.data_frames p ≡ none

-- What removing an area has to deliver.
pub record Removes (set : MemorySet) (m : Memory) (place : ℕ → Place) (areas : List MapArea) (s : ℕ)
    (fs : List ℕ) (o : Outcome (MemorySet × Memory)) : Type 0 where
  pub memory : Memory
  pub is : o ≡ returns (record set { areas = areas }, memory)
  pub tree : IsTree set.page_table.root_ppn memory place
  pub gone : (p : ℕ) → s ≤ p → p < s + length fs → lookup set.page_table memory p ≡ none
  pub others :
      (p : ℕ)
      → p < 2 ^ 27
      → (p < s) ⊎ (s + length fs ≤ p)
      → lookup set.page_table memory p ≡ lookup set.page_table m p
  pub frees : (x : ℕ) → is_free memory.allocator x ≡ (is_free m.allocator x || mem x fs)
  pub untouched : (x k : ℕ) → place x ≡ outside → memory.entries x k ≡ m.entries x k

remove_area_found :
    (before after : List MapArea) (a a' : MapArea) (t : PageTable) (m m' : Memory)
    → All (λ b. b.vpn_range.l ≢ a.vpn_range.l) before
    → unmap_area a t m ≡ returns (a', m')
    → a'.data_frames ≡ []
    → remove_area (before ++ (a ∷ after)) t m a.vpn_range.l ≡ returns (before ++ after, m')
unfolding remove_area drop_frames
remove_area_found [] after a a' t m m' h e empty = rw (==_self a.vpn_range.l, e, empty) refl
remove_area_found (b ∷ before) after a a' t m m' h e empty =
    rw
      (
        ==_of_ne b.vpn_range.l a.vpn_range.l h.0,
        remove_area_found before after a a' t m m' h.1 e empty,
      )
      refl

-- `remove_area_with_start_vpn` of the start of an area that holds frames, the first area with this
-- start, does not panic. The area is taken out and the others stay, in their order; its pages are
-- not mapped any more and every other page is translated as before; exactly its frames become free,
-- each once; the table is a tree still, and the memory outside the table keeps its content.
pub remove_area_with_start_vpn-Removes :
    (set : MemorySet) (m : Memory) (place : ℕ → Place) (before after : List MapArea) (a : MapArea)
    (fs : List ℕ)
    → set.areas ≡ before ++ (a ∷ after)
    → All (λ b. b.vpn_range.l ≢ a.vpn_range.l) before
    → IsTree set.page_table.root_ppn m place
    → Holds set.page_table m place a fs
    → Removes set m place
        (before ++ after)
        a.vpn_range.l
        fs
        (remove_area_with_start_vpn set m a.vpn_range.l)
unfolding remove_area_with_start_vpn unmap_area
remove_area_with_start_vpn-Removes set m place before after a fs is_areas other tree h =
    let r =
      unmap_from-Empties a set.page_table m place a.map_perm a.vpn_range.l fs h.is_framed h.sorted
        tree h.small h.distinct h.low h.backed in
    let empty : r.kept ≡ [] = nothing_kept r.kept (λ p. elim (Bool-cases (ltb p a.vpn_range.l)) [
      | inl b ↦ r.still_kept p (inl (ground arith)) ∙ h.confined p (inl (ground arith))
      | inr b ↦ elim (Bool-cases (ltb p (a.vpn_range.l + length fs))) [
        | inl c ↦ r.given_up p (ground arith) (ground arith)
        | inr c ↦ r.still_kept p (inr (ground arith)) ∙ h.confined p (inr (ground arith))
      ]
    ]) in
    let done : unmap_area a set.page_table m
        ≡ returns (record a { data_frames = r.kept }, r.memory) =
      ap (λ n. unmap_from n a set.page_table m a.vpn_range.l) (sym h.count) ∙ r.is in
    record {
      memory = r.memory;
      is =
          rw
            (
              is_areas,
              remove_area_found before after a _ set.page_table m r.memory other done empty,
            )
            refl;
      tree = r.tree;
      gone = r.gone;
      others = r.others;
      frees = r.frees;
      untouched = r.untouched;
    }
