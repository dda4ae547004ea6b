-- ===== src/Mm/PageTable/Creating.antt =====
-- The walk of `find_pte_create`: it reaches the entry of the indexes, over pages that it adds.
use rcore_os.Prelude.{
  ℕ, ◌^◌, ◌<◌, ◌≡◌, ◌≢◌, refl, ap, sym, subst, ◌∙◌, Bool, true, false, not, ◌&&◌, [], ◌∷◌, ◌++◌,
  Option, none, some, ◌==◌, Outcome, returns, ◌>>=◌, unwrap, arith, inl, inr, Bool-cases, ==_self,
  ==_of_ne,
}
use rcore_os.Mm.FrameAllocator.{StackFrameAllocator, alloc}
use rcore_os.Mm.FrameAllocator.Free as Frames
use rcore_os.Mm.FrameAllocator.Free.{
  is_free, mem-below, Allocates, exhausted, hands_out, alloc-Allocates,
}
use rcore_os.Mm.FrameAllocator.Trackers.{clean}
use rcore_os.Mm.PageTable.{
  Memory, PageTable, write_pte, frame_alloc, create_entry, is_valid, pte_ppn, pte_new, flag_v,
}
use rcore_os.Mm.PageTable.Extends.{Extends}
use rcore_os.Mm.PageTable.Tree.{
  Place, outside, root, child, link, view, IsTree, IsUpper, upper-child, upper-inside, linked,
  link-linked_self,
}
use rcore_os.Mm.PageTable.Linking.{same_link, view-linked, places, place_after, inside-ne}

pub free-small :
    (a : StackFrameAllocator) (n : ℕ) → Frames.IsValid a → is_free a n ≡ true → n < 2 ^ 44
free-small a n v h =
    let inside : n < a.end = ground (arith, mem-below a.recycled n a.current v.below) in
    omega (arith, v.small)

-- A table has grown: it is a tree still, with the pages that it had where they were, and the indexes
-- lead to what they did. At most one frame is not free any more.
pub record Grows (root_ppn : ℕ) (m : Memory) (place : ℕ → Place) (m' : Memory) (place' : ℕ → Place)
    : Type 0 where
  pub tree : IsTree root_ppn m' place'
  pub seen : (a b c : ℕ) → view m'.entries root_ppn a b c ≡ view m.entries root_ppn a b c
  pub links :
      (x y z : ℕ) → place x ≢ outside → link m.entries x y ≡ some z → link m'.entries x y ≡ some z
  pub taken : ℕ
  pub extends : Extends m place m' place' (taken ∷ [])

-- What `create_entry` on the entry `i` of the page `p` has to deliver.
abbrev pub Creates : ℕ → Memory → (ℕ → Place) → ℕ → ℕ → Outcome (PageTable × Memory) → Type 0
Creates root_ppn m place p i o =
    (t' : PageTable) × (m' : Memory) × (place' : ℕ → Place) × (o ≡ returns (t', m'))
    × (t'.root_ppn ≡ root_ppn)
    × Grows root_ppn m place m' place'
    × (is_valid (m'.entries p i) ≡ true)
    × (place' (pte_ppn (m'.entries p i)) ≡ child (place p) i)

link-none : (e : ℕ → ℕ → ℕ) (p i : ℕ) → is_valid (e p i) ≡ false → link e p i ≡ none
link-none e p i h = rw h refl

pub link-some :
    (e : ℕ → ℕ → ℕ) (p i q : ℕ)
    → link e p i ≡ some q
    → (is_valid (e p i) ≡ true) × (pte_ppn (e p i) ≡ q)
link-some e p i q h = elim (Bool-cases (is_valid (e p i))) [
  | inl v ↦ let same : some (pte_ppn (e p i)) ≡ some q = rw v at h in (v, cc same)
  | inr v ↦ let bad : none ≡ some q = rw v at h in cc
]

and_both : (a b : Bool) → (a && not b) ≡ true → (a ≡ true) × (b ≡ false)
and_both true true h = cc
and_both true false h = (refl, refl)
and_both false b h = cc

-- What `frame_alloc` makes of what the allocator gives, and `create_entry` of that.
abbrev pub zeroed : Memory → Option ℕ × StackFrameAllocator → Outcome (ℕ × Memory)
zeroed m r =
    unwrap r.0 >>= λ q. returns (q, record { allocator = r.1; entries = clean q m.entries })

abbrev link_page : ℕ → ℕ → PageTable → Outcome (ℕ × Memory) → Outcome (PageTable × Memory)
link_page p i t o = o >>= λ r.
    returns
      (record t { frames = t.frames ++ (r.0 ∷ []) }, write_pte r.1 (p, i) (pte_new r.0 flag_v))

pub busy-ne : (a : StackFrameAllocator) (x y : ℕ) → is_free a x ≡ false → is_free a y ≡ true → x ≢ y
busy-ne a x y h f e = let bad : false ≡ true = sym h ∙ ap (is_free a) e ∙ f in cc

linked_elsewhere : (e : ℕ → ℕ → ℕ) (p i q x y : ℕ) → x ≢ p → x ≢ q → linked e p i q x y ≡ e x y
linked_elsewhere e p i q x y a b = rw (==_of_ne x p a, ==_of_ne x q b) refl

-- The state after a free frame has been linked in.
create_new :
    (t : PageTable) (m : Memory) (place : ℕ → Place) (p i x : ℕ)
    → IsTree t.root_ppn m place
    → IsUpper (place p)
    → is_valid (m.entries p i) ≡ false
    → is_free m.allocator x ≡ true
    → (r : Option ℕ × StackFrameAllocator) → Allocates m.allocator r
    → Creates t.root_ppn m place p i (link_page p i t (zeroed m r))
unfolding write_pte
create_new t m place p i x tree u inv free r (exhausted none_free) =
    absurd (let bad : true ≡ false = sym free ∙ none_free x in cc)
create_new t m place p i x tree u inv free r (hands_out q b was after v same) =
    let small : q < 2 ^ 44 = free-small m.allocator q tree.frames was in
    let nothing : link m.entries p i ≡ none = link-none m.entries p i inv in
    let self : ((p == p) && (i == i)) ≡ true = ground arith in
    let (valid, to) =
      link-some (linked m.entries p i q) p i q (link-linked_self m.entries p i q p i small self) in
    (
      record t { frames = t.frames ++ (q ∷ []) },
      record { allocator = b; entries = linked m.entries p i q },
      place_after t.root_ppn m place tree p i q u nothing was small,
      refl,
      refl,
      record {
        tree = record {
          frames = v;
          top =
              rw
                (==_of_ne t.root_ppn q (
                  inside-ne t.root_ppn m place tree p i q u nothing was small t.root_ppn
                    (λ o. let bad : root ≡ outside = sym tree.top ∙ o in cc)))
                tree.top;
          down = places t.root_ppn m place tree p i q u nothing was small;
          used = λ y f.
              let (before, ne) = and_both (is_free m.allocator y) (q == y) (sym (after y) ∙ f) in
              rw (==_of_ne y q (λ e. ground arith)) (tree.used y before);
        };
        seen = view-linked t.root_ppn m place tree p i q u nothing was small;
        links = λ y l z h e.
            elim (same_link t.root_ppn m place tree p i q u nothing was small y l h) [
              | inl both ↦ both ∙ e
              | inr (none_before, _) ↦ let bad : none ≡ some z = sym none_before ∙ e in cc
            ];
        taken = q;
        extends = record {
          limit = same;
          busy = λ y h. ground (arith, after y);
          spare = λ y h n. ground (arith, after y);
          kept = λ y h.
              rw (==_of_ne y q (inside-ne t.root_ppn m place tree p i q u nothing was small y h))
                refl;
          stays = λ y h. rw (==_of_ne y q (busy-ne m.allocator y q h was)) refl;
          untouched = λ y k h o.
              linked_elsewhere m.entries p i q y k
                (λ e. upper-inside (place p) u (ap place (sym e) ∙ o))
                (busy-ne m.allocator y q h was);
        };
      },
      valid,
      rw (to, ==_self q) refl,
    )

create_old :
    (t : PageTable) (m : Memory) (place : ℕ → Place) (p i : ℕ)
    → IsTree t.root_ppn m place
    → IsUpper (place p)
    → is_valid (m.entries p i) ≡ true
    → Creates t.root_ppn m place p i (returns (t, m))
create_old t m place p i tree u valid = (
  t,
  m,
  place,
  refl,
  refl,
  record {
    tree = tree;
    seen = λ a b c. refl;
    links = λ y l z h e. e;
    taken = 0;
    extends = record {
      limit = refl;
      busy = λ y h. h;
      spare = λ y h n. h;
      kept = λ y h. refl;
      stays = λ y h. refl;
      untouched = λ y k h o. refl;
    };
  },
  valid,
  tree.down p i (pte_ppn (m.entries p i)) (upper-child (place p) i u) (rw valid refl),
)

entry_valid :
    (t : PageTable) (m : Memory) (p i : ℕ)
    → is_valid (m.entries p i) ≡ true
    → create_entry p i t m ≡ returns (t, m)
unfolding create_entry
entry_valid t m p i v = rw (v, create_entry) refl

entry_invalid :
    (t : PageTable) (m : Memory) (p i : ℕ)
    → is_valid (m.entries p i) ≡ false
    → create_entry p i t m ≡ link_page p i t (zeroed m (alloc m.allocator))
unfolding create_entry frame_alloc
entry_invalid t m p i v = rw (v, create_entry) refl

-- With a frame free, `create_entry` delivers.
pub create_entry-Creates :
    (t : PageTable) (m : Memory) (place : ℕ → Place) (p i x : ℕ)
    → IsTree t.root_ppn m place
    → IsUpper (place p)
    → is_free m.allocator x ≡ true
    → Creates t.root_ppn m place p i (create_entry p i t m)
create_entry-Creates t m place p i x tree u free = elim (Bool-cases (is_valid (m.entries p i))) [
  | inl v ↦
      subst (Creates t.root_ppn m place p i) (sym (entry_valid t m p i v))
        (create_old t m place p i tree u v)
  | inr v ↦ subst (Creates t.root_ppn m place p i) (sym (entry_invalid t m p i v)) (
      create_new t m place p i x tree u v free (alloc m.allocator)
        (alloc-Allocates m.allocator tree.frames))
]
