-- ===== src/Mm/MemorySet/Releasing.antt =====
-- Unmapping one page of a framed area, which gives its frame back.
use rcore_os.Prelude.{
  ℕ, ◌^◌, ◌<◌, ◌≡◌, ◌≢◌, refl, ap, sym, ◌∙◌, false, ◌||◌, none, some, ◌==◌, Outcome, returns, ◌>>=◌,
  arith, [], ◌∷◌, All, if◌then◌else◌, Bool-cases, inl, inr,
}
use rcore_os.Mm.FrameAllocator.{StackFrameAllocator, dealloc}
use rcore_os.Mm.FrameAllocator.Free.{is_free, dealloc-Frees}
use rcore_os.Mm.PageTable.{Memory, PageTable, unmap}
use rcore_os.Mm.PageTable.Tree.{Place, outside, IsTree}
use rcore_os.Mm.PageTable.Lookup.{lookup, lookup-view}
use rcore_os.Mm.PageTable.Unmapping.{unmap-Unmaps}
use rcore_os.Mm.MemorySet.{
  MapArea, framed, Frames, get_frame, remove_frame, drop_frame, release_frame, unmap_one,
}
use rcore_os.Mm.MemorySet.Filling.{IsSorted}

get_frame_before : (k : ℕ) (es : Frames) → All (λ x. k < x.0) es → get_frame es k ≡ none
get_frame_before k [] a = refl
get_frame_before k (e ∷ es) a = ground (arith, a.0, get_frame_before k es a.1)

pub get_frame-remove_frame :
    (k j : ℕ) (es : Frames)
    → IsSorted es
    → get_frame (remove_frame k es) j ≡ (if k == j then none else get_frame es j)
get_frame-remove_frame k j [] s = ground arith
get_frame-remove_frame k j (e ∷ es) s =
    ground (arith, get_frame_before e.0 es s.0, get_frame-remove_frame k j es s.1)

remove_frame-All :
    (c k : ℕ) (es : Frames) → All (λ x. c < x.0) es → All (λ x. c < x.0) (remove_frame k es)
remove_frame-All c k [] a = tt
remove_frame-All c k (e ∷ es) a = elim (Bool-cases (e.0 == k)) [
  | inl same ↦ rw same a.1
  | inr other ↦ rw other (a.0, remove_frame-All c k es a.1)
]

pub remove_frame-IsSorted : (k : ℕ) (es : Frames) → IsSorted es → IsSorted (remove_frame k es)
remove_frame-IsSorted k [] s = tt
remove_frame-IsSorted k (e ∷ es) s = elim (Bool-cases (e.0 == k)) [
  | inl same ↦ rw same s.1
  | inr other ↦ rw other (remove_frame-All e.0 k es s.0, remove_frame-IsSorted k es s.1)
]

-- A map that has nothing under any page is empty.
pub nothing_kept : (es : Frames) → ((p : ℕ) → get_frame es p ≡ none) → es ≡ []
nothing_kept [] h = refl
nothing_kept (e ∷ es) h = absurd (let bad : get_frame (e ∷ es) e.0 ≡ none = h e.0 in ground arith)

-- What unmapping the page `vpn`, which is kept in the frame `f`, has to deliver.
pub record Releases (a : MapArea) (t : PageTable) (m : Memory) (place : ℕ → Place) (vpn f : ℕ)
    (o : Outcome (MapArea × Memory)) : Type 0 where
  pub memory : Memory
  pub is : o ≡ returns (record a { data_frames = remove_frame vpn a.data_frames }, memory)
  pub tree : IsTree t.root_ppn memory place
  pub gone : lookup t memory vpn ≡ none
  pub others : (p : ℕ) → p < 2 ^ 27 → p ≢ vpn → lookup t memory p ≡ lookup t m p
  pub frees : (x : ℕ) → is_free memory.allocator x ≡ (is_free m.allocator x || (f == x))
  pub limit : memory.allocator.end ≡ m.allocator.end
  pub untouched : (x k : ℕ) → place x ≡ outside → memory.entries x k ≡ m.entries x k

release_frame_framed :
    (a : MapArea) (m : Memory) (b : StackFrameAllocator) (vpn f : ℕ)
    → get_frame a.data_frames vpn ≡ some f
    → dealloc m.allocator f ≡ returns b
    → release_frame framed a m vpn
      ≡ returns
          (record a { data_frames = remove_frame vpn a.data_frames }, record m { allocator = b })
unfolding release_frame drop_frame
release_frame_framed a m b vpn f e d = rw (e, drop_frame, d) refl

unmap_one_framed :
    (a : MapArea) (t : PageTable) (m m' : Memory) (b : StackFrameAllocator) (vpn f : ℕ)
    → a.map_type ≡ framed
    → get_frame a.data_frames vpn ≡ some f
    → dealloc m.allocator f ≡ returns b
    → unmap t (record m { allocator = b }) vpn ≡ returns m'
    → unmap_one a t m vpn ≡ returns (record a { data_frames = remove_frame vpn a.data_frames }, m')
unfolding unmap_one
unmap_one_framed a t m m' b vpn f ty e d u =
    ap (λ k. release_frame k a m vpn >>= λ r. (unmap t r.1 vpn >>= λ m'. returns (r.0, m'))) ty
    ∙ rw (release_frame_framed a m b vpn f e d, u) refl

pub unmap_one-Releases :
    (a : MapArea) (t : PageTable) (m : Memory) (place : ℕ → Place) (vpn f bits : ℕ)
    → a.map_type ≡ framed
    → get_frame a.data_frames vpn ≡ some f
    → IsTree t.root_ppn m place
    → vpn < 2 ^ 27
    → place f ≡ outside
    → is_free m.allocator f ≡ false
    → f < m.allocator.end
    → lookup t m vpn ≡ some bits
    → Releases a t m place vpn f (unmap_one a t m vpn)
unmap_one-Releases a t m place vpn f bits ty e tree small out used low mapped =
    let (b, d, frees, v, limit) = (dealloc-Frees m.allocator f tree.frames).0 used low in
    let given = record m { allocator = b } in
    let same : (p : ℕ) → lookup t given p ≡ lookup t m p =
      λ p. lookup-view t given p ∙ sym (lookup-view t m p) in
    let tree' : IsTree t.root_ppn given place = record {
      frames = v;
      top = tree.top;
      down = tree.down;
      used = λ p h. elim (Bool-cases (f == p)) [
        | inl eq ↦ let is : p ≡ f = ground arith in ap place is ∙ out
        | inr ne ↦ tree.used p (ground (arith, frees p))
      ];
    } in
    let (m', u, (_, after, gone, others), kept, untouched) =
      (unmap-Unmaps t given place vpn tree' small).0 bits (same vpn ∙ mapped) in
    record {
      memory = m';
      is = unmap_one_framed a t m m' b vpn f ty e d u;
      tree = after;
      gone = gone;
      others = λ p h n. others p h n ∙ same p;
      frees = λ x. ap (λ c. is_free c x) kept ∙ frees x;
      limit = ap (λ c. c.end) kept ∙ limit;
      untouched = untouched;
    }
