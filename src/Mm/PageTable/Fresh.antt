-- ===== src/Mm/PageTable/Fresh.antt =====
-- The table that `PageTable::new` makes.
use rcore_os.Prelude.{
  ℕ, ◌≡◌, ◌≢◌, refl, sym, ◌∙◌, true, false, [], ◌∷◌, Option, none, some, if◌then◌else◌, ◌==◌,
  Outcome, returns, ◌>>=◌, arith, inl, inr, Bool-cases, ==_self, ==_of_ne,
}
use rcore_os.Mm.FrameAllocator.{StackFrameAllocator, alloc}
use rcore_os.Mm.FrameAllocator.Free as Frames
use rcore_os.Mm.FrameAllocator.Free.{is_free, Allocates, exhausted, hands_out, alloc-Allocates}
use rcore_os.Mm.FrameAllocator.Trackers.{clean}
use rcore_os.Mm.PageTable.{Memory, PageTable, new, frame_alloc}
use rcore_os.Mm.PageTable.Entries.{is_valid_lem}
use rcore_os.Mm.PageTable.Tree.{Place, outside, root, child, link, IsTree}
use rcore_os.Mm.PageTable.Creating.{zeroed}
use rcore_os.Mm.PageTable.Lookup.{lookup, lookup-view}

-- Only the root belongs to the table.
abbrev pub alone : ℕ → ℕ → Place
alone r x = if x == r then root else outside

-- What making a table has to deliver.
abbrev pub MakesTable : Outcome (PageTable × Memory) → Type 0
MakesTable o =
    (t : PageTable) × (m' : Memory) × (o ≡ returns (t, m'))
    × IsTree t.root_ppn m' (alone t.root_ppn)
    × ((vpn : ℕ) → lookup t m' vpn ≡ none)

link-zeroed : (e : ℕ → ℕ → ℕ) (r i : ℕ) → link (clean r e) r i ≡ none
link-zeroed e r i = rw (==_self r, is_valid_lem 0) refl

alone_down :
    (e : ℕ → ℕ → ℕ) (r p i q : ℕ)
    → child (alone r p) i ≢ outside
    → link (clean r e) p i ≡ some q
    → alone r q ≡ child (alone r p) i
alone_down e r p i q inside l = elim (Bool-cases (p == r)) [
  | inl same ↦
      let at : p ≡ r = ground arith in
      absurd (let bad : none ≡ some q = sym (rw at (link-zeroed e r i)) ∙ l in cc)
  | inr other ↦ absurd (inside (rw other refl))
]

made : Outcome (ℕ × Memory) → Outcome (PageTable × Memory)
made o = o >>= λ q. returns (record { root_ppn = q.0; frames = q.0 ∷ [] }, q.1)

make :
    (m : Memory) (x : ℕ) (r : Option ℕ × StackFrameAllocator)
    → is_free m.allocator x ≡ true
    → Allocates m.allocator r
    → MakesTable (made (zeroed m r))
unfolding made
make m x r free (exhausted none_free) =
    absurd (let bad : true ≡ false = sym free ∙ none_free x in cc)
make m x r free (hands_out q b was after v same) = (
  record { root_ppn = q; frames = q ∷ [] },
  record { allocator = b; entries = clean q m.entries },
  refl,
  record {
    frames = v;
    top = rw (==_self q) refl;
    down = alone_down m.entries q;
    used = λ p f. rw (==_of_ne p q (λ e. ground (arith, after p))) refl;
  },
  λ vpn. lookup-view _ _ vpn ∙ rw (link-zeroed m.entries q) refl,
)

-- With a frame free, `PageTable::new` returns a table that is a tree and translates no page.
pub new-MakesTable :
    (m : Memory) (x : ℕ)
    → Frames.IsValid m.allocator
    → is_free m.allocator x ≡ true
    → MakesTable (new m)
unfolding new frame_alloc made
new-MakesTable m x v free = make m x (alloc m.allocator) free (alloc-Allocates m.allocator v)
