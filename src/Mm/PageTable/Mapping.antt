-- ===== src/Mm/PageTable/Mapping.antt =====
-- `map` and `unmap` change what their page is translated to, and nothing else.
use rcore_os.Prelude.{
  ℕ, ◌^◌, ◌<◌, ◌≡◌, ◌≢◌, refl, ap, sym, ◌∙◌, true, false, Option, none, some, if◌then◌else◌,
  Outcome, returns, panics, arith, inl, inr, Bool-cases, bit_or, List, length, ==_of_ne,
}
use rcore_os.Mm.Address.Conversions.{indexes_lem, third, second, first}
use rcore_os.Mm.FrameAllocator.Free.{is_free}
use rcore_os.Mm.PageTable.{
  Memory, PageTable, write_pte, find_pte_create, map, is_valid, pte_new, flag_v,
}
use rcore_os.Mm.PageTable.Entries.{is_valid-pte_new}
use rcore_os.Mm.PageTable.Extends.{Extends}
use rcore_os.Mm.PageTable.Tree.{Place, outside, last, link, leaf, view, IsTree}
use rcore_os.Mm.PageTable.Leaves.{written, IsTree-written, view-written_self, view-written_other}
use rcore_os.Mm.PageTable.Lookup.{lookup, lookup-view}
use rcore_os.Mm.PageTable.Reaching.{create_from-Reaches}

-- What a change of the page `vpn` to `now` has to deliver.
abbrev pub Changes : PageTable → Memory → ℕ → Option ℕ → PageTable → Memory → (ℕ → Place) → Type 0
Changes t m vpn now t' m' place' =
    (t'.root_ppn ≡ t.root_ppn)
    × IsTree t.root_ppn m' place'
    × (lookup t' m' vpn ≡ now)
    × ((other : ℕ) → other < 2 ^ 27 → other ≢ vpn → lookup t' m' other ≡ lookup t m other)

other_indexes :
    (vpn other : ℕ)
    → vpn < 2 ^ 27
    → other < 2 ^ 27
    → other ≢ vpn
    → third other ≡ third vpn
    → second other ≡ second vpn
    → first other ≡ first vpn
    → ⊥
other_indexes vpn other h k ne a b c = ne (omega arith)

pub leaf-none : (e : ℕ → ℕ → ℕ) (p k : ℕ) → leaf e p k ≡ none → is_valid (e p k) ≡ false
leaf-none e p k h = elim (Bool-cases (is_valid (e p k))) [
  | inl v ↦ let bad : some (e p k) ≡ none = rw v at h in cc
  | inr v ↦ v
]

pub leaf-some : (e : ℕ → ℕ → ℕ) (p k b : ℕ) → leaf e p k ≡ some b → is_valid (e p k) ≡ true
leaf-some e p k b h = elim (Bool-cases (is_valid (e p k))) [
  | inl v ↦ v
  | inr v ↦ let bad : none ≡ some b = rw v at h in cc
]

pub view-leaf :
    (e : ℕ → ℕ → ℕ) (r p q i j k : ℕ)
    → link e r i ≡ some p
    → link e p j ≡ some q
    → view e r i j k ≡ leaf e q k
view-leaf e r p q i j k a b = rw (a, b) refl

-- Writing the entry that a page's indexes lead to changes that page only.
pub write-Changes :
    (t t' : PageTable) (m m' : Memory) (place' : ℕ → Place) (vpn p q bits : ℕ) (now : Option ℕ)
    → vpn < 2 ^ 27
    → t'.root_ppn ≡ t.root_ppn
    → IsTree t.root_ppn m' place'
    → place' q ≡ last (third vpn) (second vpn)
    → link m'.entries t.root_ppn (third vpn) ≡ some p
    → link m'.entries p (second vpn) ≡ some q
    → ((a b c : ℕ) → view m'.entries t.root_ppn a b c ≡ view m.entries t.root_ppn a b c)
    → (if is_valid bits then some bits else none) ≡ now
    → Changes t m vpn now t' (write_pte m' (q, first vpn) bits) place'
unfolding write_pte
write-Changes t t' m m' place' vpn p q bits now small r tree there l₁ l₂ seen is_now =
    let i = third vpn in
    let j = second vpn in
    let k = first vpn in
    (
      r,
      IsTree-written t.root_ppn m' place' tree i j k q bits there,
      lookup-view t' (write_pte m' (q, k) bits) vpn
          ∙ ap (λ x. view (written m'.entries q k bits) x i j k) r
          ∙ view-written_self t.root_ppn m' place' tree i j k q bits there p l₁ l₂
          ∙ is_now,
      λ other h ne.
          lookup-view t' (write_pte m' (q, k) bits) other
          ∙ ap
              (λ x. view (written m'.entries q k bits) x (third other) (second other) (first other))
              r
          ∙ view-written_other t.root_ppn m' place' tree i j k q bits there (third other)
              (second other) (first other) (other_indexes vpn other small h ne)
          ∙ seen (third other) (second other) (first other)
          ∙ sym (lookup-view t m other),
    )

-- What mapping has to deliver.
abbrev pub Maps : PageTable → Memory → (ℕ → Place) → ℕ → ℕ → Outcome (PageTable × Memory) → Type 0
Maps t m place vpn bits o =
    (t' : PageTable) × (m' : Memory) × (place' : ℕ → Place) × (o ≡ returns (t', m'))
    × Changes t m vpn (some bits) t' m' place'
    × (taken : List ℕ) × (length taken ≡ 2)
    × Extends m place m' place' taken

-- An entry of a page of the table may be written.
Extends-write :
    (m m' : Memory) (place place' : ℕ → Place) (taken : List ℕ) (q k bits : ℕ)
    → place' q ≢ outside
    → Extends m place m' place' taken
    → Extends m place (write_pte m' (q, k) bits) place' taken
unfolding write_pte
Extends-write m m' place place' taken q k bits inside x = record {
  limit = x.limit;
  busy = x.busy;
  spare = x.spare;
  kept = x.kept;
  stays = x.stays;
  untouched = λ y l h o.
      rw (==_of_ne y q (λ e. inside (ap place' (sym e) ∙ x.stays y h ∙ o))) (x.untouched y l h o);
}

map_found :
    (t t' : PageTable) (m m' : Memory) (vpn ppn flags q : ℕ)
    → find_pte_create t m vpn ≡ returns (some (q, first vpn), t', m')
    → (is_valid (m'.entries q (first vpn)) ≡ false
        → map t m vpn ppn flags
          ≡ returns (t', write_pte m' (q, first vpn) (pte_new ppn (bit_or flags flag_v))))
      × (is_valid (m'.entries q (first vpn)) ≡ true → map t m vpn ppn flags ≡ panics)
unfolding map
map_found t t' m m' vpn ppn flags q e = (λ v. rw (e, v) refl, λ v. rw (e, v) refl)

-- For a table that is a tree, with two frames free (a new page takes at most two), `map` of a page
-- that has no valid entry returns: the page then has the entry that is made of the frame and the
-- flags with V, every other page is translated as before, and the table is a tree still. Frames in use
-- stay in use, and those outside the table keep their content; all free frames but two stay free.
-- `map` of a page that has a valid entry panics.
pub map-Maps :
    (t : PageTable) (m : Memory) (place : ℕ → Place) (vpn ppn flags x y : ℕ)
    → IsTree t.root_ppn m place
    → vpn < 2 ^ 27
    → ppn < 2 ^ 44
    → flags < 2 ^ 8
    → is_free m.allocator x ≡ true
    → is_free m.allocator y ≡ true
    → x ≢ y
    → (lookup t m vpn ≡ none
        → Maps t m place vpn (pte_new ppn (bit_or flags flag_v)) (map t m vpn ppn flags))
      × ((bits : ℕ) → lookup t m vpn ≡ some bits → map t m vpn ppn flags ≡ panics)
unfolding find_pte_create
map-Maps t m place vpn ppn flags x y tree sv sp sf fx fy ne =
    let (p, q, t', m', place', e, r, tree', there, l₁, l₂, taken, two, ext, seen) =
      create_from-Reaches t m place (third vpn) (second vpn) (first vpn) x y tree fx fy ne in
    let found : find_pte_create t m vpn ≡ returns (some (q, first vpn), t', m') =
      rw (indexes_lem vpn) e in
    let same : leaf m'.entries q (first vpn) ≡ lookup t m vpn =
      sym (view-leaf m'.entries t.root_ppn p q (third vpn) (second vpn) (first vpn) l₁ l₂)
      ∙ seen (third vpn) (second vpn) (first vpn)
      ∙ sym (lookup-view t m vpn) in
    let (fresh, mapped) = map_found t t' m m' vpn ppn flags q found in
    let valid : is_valid (pte_new ppn (bit_or flags flag_v)) ≡ true =
      is_valid-pte_new ppn flags sp sf in
    (
      λ no. (
        t',
        write_pte m' (q, first vpn) (pte_new ppn (bit_or flags flag_v)),
        place',
        fresh (leaf-none m'.entries q (first vpn) (same ∙ no)),
        write-Changes t t' m m' place' vpn p q (pte_new ppn (bit_or flags flag_v))
            (some (pte_new ppn (bit_or flags flag_v))) sv r tree' there l₁ l₂ seen (rw valid refl),
        taken,
        two,
        Extends-write m m' place place' taken q (first vpn) (pte_new ppn (bit_or flags flag_v))
            (λ o. let bad : last (third vpn) (second vpn) ≡ outside = sym there ∙ o in cc) ext,
      ),
      λ bits is. mapped (leaf-some m'.entries q (first vpn) bits (same ∙ is)),
    )
