-- ===== src/Mm/MemorySet/Framed.antt =====
-- Mapping a page to a new frame.
use rcore_os.Prelude.{
  ℕ, ◌^◌, ◌<◌, ◌≡◌, ◌≢◌, refl, ap, sym, ◌∙◌, true, false, List, [], ◌∷◌, Option, none, some, length,
  Outcome, returns, ◌>>=◌, bit_or, arith, Option-cases, inl, inr, ==_self, ==_of_ne,
}
use rcore_os.Mm.FrameAllocator.{StackFrameAllocator, alloc}
use rcore_os.Mm.FrameAllocator.Free.{is_free, Allocates, exhausted, hands_out, alloc-Allocates}
use rcore_os.Mm.FrameAllocator.Trackers.{clean}
use rcore_os.Mm.PageTable.{Memory, PageTable, frame_alloc, map, pte_new, flag_v}
use rcore_os.Mm.PageTable.Tree.{Place, outside, root, middle, last, child, link, leaf, view, IsTree}
use rcore_os.Mm.PageTable.Creating.{zeroed, free-small, busy-ne}
use rcore_os.Mm.PageTable.Extends.{Extends, Extends-trans}
use rcore_os.Mm.PageTable.Lookup.{lookup, lookup-view}
use rcore_os.Mm.PageTable.Mapping.{map-Maps}
use rcore_os.Mm.MemorySet.{
  MapArea, framed, get_frame, insert_frame, frame_for, map_one, Mapping, drop_frame,
}
use rcore_os.Mm.MemorySet.Supply.{Supply, Supply-first, Supply-two, Supply-without}

link-clean : (e : ℕ → ℕ → ℕ) (f p i : ℕ) → p ≢ f → link (clean f e) p i ≡ link e p i
link-clean e f p i n = rw (==_of_ne p f n) refl

leaf-clean : (e : ℕ → ℕ → ℕ) (f p i : ℕ) → p ≢ f → leaf (clean f e) p i ≡ leaf e p i
leaf-clean e f p i n = rw (==_of_ne p f n) refl

-- Cleaning a page outside the tree changes no translation.
view-clean :
    (root_ppn : ℕ) (m : Memory) (place : ℕ → Place) (f i j k : ℕ)
    → IsTree root_ppn m place
    → place f ≡ outside
    → view (clean f m.entries) root_ppn i j k ≡ view m.entries root_ppn i j k
view-clean root_ppn m place f i j k tree out =
    let e = m.entries in
    let inside : (p : ℕ) → place p ≢ outside → p ≢ f = λ p n same. n (ap place same ∙ out) in
    let top =
      link-clean e f root_ppn i
        (inside root_ppn (λ o. let bad : root ≡ outside = sym tree.top ∙ o in cc)) in
    elim (Option-cases (link e root_ppn i)) [
      | inl a ↦ rw (top, a) refl
      | inr (p, a) ↦
          let at : place p ≡ middle i =
            tree.down root_ppn i p
              (λ o. let bad : middle i ≡ outside = ap (λ w. child w i) (sym tree.top) ∙ o in cc) a
            ∙ ap (λ w. child w i) tree.top in
          let next =
            link-clean e f p j (inside p (λ o. let bad : middle i ≡ outside = sym at ∙ o in cc)) in
          elim (Option-cases (link e p j)) [
            | inl b ↦ rw (top, a, next, b) refl
            | inr (q, b) ↦
                let there : place q ≡ last i j =
                  tree.down p j q
                    (λ o. let bad : last i j ≡ outside = ap (λ w. child w j) (sym at) ∙ o in cc) b
                  ∙ ap (λ w. child w j) at in
                rw (top, a, next, b)
                  (leaf-clean e f q k
                    (inside q (λ o. let bad : last i j ≡ outside = sym there ∙ o in cc)))
          ]
    ]

-- A frame taken for data.
record Takes (t : PageTable) (m : Memory) (place : ℕ → Place) (o : Outcome (ℕ × Memory))
    : Type 0 where
  frame : ℕ
  after : Memory
  is : o ≡ returns (frame, after)
  tree : IsTree t.root_ppn after place
  free : is_free m.allocator frame ≡ true
  busy : is_free after.allocator frame ≡ false
  small : frame < 2 ^ 44
  blank : (k : ℕ) → after.entries frame k ≡ 0
  same : (vpn : ℕ) → lookup t after vpn ≡ lookup t m vpn
  extends : Extends m place after place (frame ∷ [])

take_frame :
    (t : PageTable) (m : Memory) (place : ℕ → Place) (x : ℕ) (r : Option ℕ × StackFrameAllocator)
    → IsTree t.root_ppn m place
    → is_free m.allocator x ≡ true
    → Allocates m.allocator r
    → Takes t m place (zeroed m r)
take_frame t m place x r tree free (exhausted none_free) =
    absurd (let bad : true ≡ false = sym free ∙ none_free x in cc)
take_frame t m place x r tree free (hands_out f b was after v same) =
    let out = tree.used f was in
    record {
      frame = f;
      after = record { allocator = b; entries = clean f m.entries };
      is = refl;
      tree = record {
        frames = v;
        top = tree.top;
        down = λ p i q n l. tree.down p i q n (
            sym (link-clean m.entries f p i (λ e. n (ap (λ w. child w i) (ap place e ∙ out)))) ∙ l);
        used = λ p h. tree.used p (ground (arith, after p));
      };
      free = was;
      busy = ground (arith, after f);
      small = free-small m.allocator f tree.frames was;
      blank = λ k. rw (==_self f) refl;
      same = λ vpn.
          lookup-view t _ vpn
          ∙ view-clean t.root_ppn m place f _ _ _ tree out
          ∙ sym (lookup-view t m vpn);
      extends = record {
        limit = same;
        busy = λ y h. ground (arith, after y);
        spare = λ y h n. ground (arith, after y);
        kept = λ y h. refl;
        stays = λ y h. refl;
        untouched = λ y k h o. rw (==_of_ne y f (busy-ne m.allocator y f h was)) refl;
      };
    }

frame_alloc-Takes :
    (t : PageTable) (m : Memory) (place : ℕ → Place) (x : ℕ)
    → IsTree t.root_ppn m place
    → is_free m.allocator x ≡ true
    → Takes t m place (frame_alloc m)
unfolding frame_alloc
frame_alloc-Takes t m place x tree free =
    take_frame t m place x (alloc m.allocator) tree free (alloc-Allocates m.allocator tree.frames)

-- A page that `map_one` of a framed area has mapped: to a new frame, which is zeroed.
pub record MapsOne (a : MapArea) (t : PageTable) (m : Memory) (place : ℕ → Place) (vpn : ℕ)
    (o : Outcome Mapping) : Type 0 where
  pub frame : ℕ
  pub table : PageTable
  pub memory : Memory
  pub place' : ℕ → Place
  pub is :
      o ≡ returns (record a { data_frames = insert_frame vpn frame a.data_frames }, table, memory)
  pub root_same : table.root_ppn ≡ t.root_ppn
  pub tree : IsTree t.root_ppn memory place'
  pub free : is_free m.allocator frame ≡ true
  pub busy : is_free memory.allocator frame ≡ false
  pub apart : place' frame ≡ outside
  pub blank : (k : ℕ) → memory.entries frame k ≡ 0
  pub mapped : lookup table memory vpn ≡ some (pte_new frame (bit_or a.map_perm flag_v))
  pub others : (p : ℕ) → p < 2 ^ 27 → p ≢ vpn → lookup table memory p ≡ lookup t m p
  pub taken : List ℕ
  pub three : length taken ≡ 3
  pub extends : Extends m place memory place' taken

frame_for_framed :
    (a : MapArea) (m m' : Memory) (vpn f : ℕ)
    → get_frame a.data_frames vpn ≡ none
    → frame_alloc m ≡ returns (f, m')
    → frame_for framed a m vpn
      ≡ returns (f, record a { data_frames = insert_frame vpn f a.data_frames }, m')
unfolding frame_for drop_frame
frame_for_framed a m m' vpn f new e = rw (e, new) refl

map_one_framed :
    (a : MapArea) (t t' : PageTable) (m m' m'' : Memory) (vpn f : ℕ)
    → a.map_type ≡ framed
    → get_frame a.data_frames vpn ≡ none
    → frame_alloc m ≡ returns (f, m')
    → map t m' vpn f a.map_perm ≡ returns (t', m'')
    → map_one a t m vpn
      ≡ returns (record a { data_frames = insert_frame vpn f a.data_frames }, t', m'')
unfolding map_one
map_one_framed a t t' m m' m'' vpn f ty new e d =
    ap
      (λ k. frame_for k a m vpn >>= λ f.
        (map t f.2 vpn f.0 a.map_perm >>= λ r. returns (f.1, r.0, r.1)))
      ty
    ∙ rw (frame_for_framed a m m' vpn f new e, d) refl

pub map_one-MapsOne :
    (a : MapArea) (t : PageTable) (m : Memory) (place : ℕ → Place) (vpn : ℕ)
    → a.map_type ≡ framed
    → a.map_perm < 2 ^ 8
    → get_frame a.data_frames vpn ≡ none
    → IsTree t.root_ppn m place
    → vpn < 2 ^ 27
    → Supply m.allocator 3
    → lookup t m vpn ≡ none
    → MapsOne a t m place vpn (map_one a t m vpn)
map_one-MapsOne a t m place vpn ty perm new tree small supply unmapped =
    let (x, fx) = Supply-first m.allocator 2 supply in
    let k = frame_alloc-Takes t m place x tree fx in
    let rest =
      Supply-without m.allocator k.after.allocator (k.frame ∷ []) 2 supply k.extends.spare in
    let (y, z, fy, fz, ne) = Supply-two k.after.allocator 0 rest in
    let (t', m', place', e, (root_same, tree', now, others), taken, two, ext) =
      (map-Maps t k.after place vpn k.frame a.map_perm y z k.tree small k.small perm fy fz ne).0
        (k.same vpn ∙ unmapped) in
    let out = k.tree.used in
    let before : place k.frame ≡ outside = tree.used k.frame k.free in
    record {
      frame = k.frame;
      table = t';
      memory = m';
      place' = place';
      is = map_one_framed a t t' m k.after m' vpn k.frame ty new k.is e;
      root_same = root_same;
      tree = tree';
      free = k.free;
      busy = ext.busy k.frame k.busy;
      apart = ext.stays k.frame k.busy ∙ before;
      blank = λ i. ext.untouched k.frame i k.busy before ∙ k.blank i;
      mapped = now;
      others = λ p h n. others p h n ∙ k.same p;
      taken = k.frame ∷ taken;
      three = omega arith;
      extends = Extends-trans m k.after m' place place place' (k.frame ∷ []) taken k.extends ext;
    }
