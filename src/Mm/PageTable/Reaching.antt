-- ===== src/Mm/PageTable/Reaching.antt =====
-- The walk of `find_pte_create` through the three levels.
use rcore_os.Prelude.{
  ℕ, ◌≡◌, ◌≢◌, refl, ap, sym, subst, ◌∙◌, true, [], ◌∷◌, Option, some, Outcome, returns, arith,
  ℕ_discrete, List, length,
}
use rcore_os.Mm.FrameAllocator.Free.{is_free}
use rcore_os.Mm.PageTable.{Memory, PageTable, create_from, pte_ppn}
use rcore_os.Mm.PageTable.Extends.{Extends, Extends-trans}
use rcore_os.Mm.PageTable.Tree.{Place, outside, root, middle, last, child, link, view, IsTree}
use rcore_os.Mm.PageTable.Creating.{Grows, create_entry-Creates}

-- The walk that creates, with two frames free.
abbrev pub Reaches :
    PageTable
    → Memory
    → (ℕ → Place)
    → ℕ
    → ℕ
    → ℕ
    → Outcome (Option (ℕ × ℕ) × PageTable × Memory)
    → Type 0
Reaches t m place i j k o =
    (p q : ℕ) × (t' : PageTable) × (m' : Memory) × (place' : ℕ → Place) × (o
      ≡ returns (some (q, k), t', m'))
    × (t'.root_ppn ≡ t.root_ppn)
    × IsTree t.root_ppn m' place'
    × (place' q ≡ last i j)
    × (link m'.entries t.root_ppn i ≡ some p)
    × (link m'.entries p j ≡ some q)
    × (taken : List ℕ) × (length taken ≡ 2)
    × Extends m place m' place' taken
    × ((a b c : ℕ) → view m'.entries t.root_ppn a b c ≡ view m.entries t.root_ppn a b c)

still_free :
    (m m' : Memory) (place place' : ℕ → Place) (r x y : ℕ)
    → Grows r m place m' place'
    → is_free m.allocator x ≡ true
    → is_free m.allocator y ≡ true
    → x ≢ y
    → (z : ℕ) × (is_free m'.allocator z ≡ true)
still_free m m' place place' r x y g fx fy ne = elim (ℕ_discrete x g.taken) [
  | yes e ↦ (y, g.extends.spare y fy (ground arith))
  | no n ↦ (x, g.extends.spare x fx (ground arith))
]

pub create_from-Reaches :
    (t : PageTable) (m : Memory) (place : ℕ → Place) (i j k x y : ℕ)
    → IsTree t.root_ppn m place
    → is_free m.allocator x ≡ true
    → is_free m.allocator y ≡ true
    → x ≢ y
    → Reaches t m place i j k (create_from (i ∷ j ∷ k ∷ []) t.root_ppn t m)
unfolding create_from
create_from-Reaches t m place i j k x y tree fx fy ne =
    let (t₁, m₁, place₁, e₁, r₁, g₁, v₁, to₁) =
      create_entry-Creates t m place t.root_ppn i x tree (rw tree.top tt) fx in
    let (z, fz) = still_free m m₁ place place₁ t.root_ppn x y g₁ fx fy ne in
    let p = pte_ppn (m₁.entries t.root_ppn i) in
    let at₁ : place₁ p ≡ middle i = to₁ ∙ ap (λ a. child a i) tree.top in
    let tree₁ : IsTree t₁.root_ppn m₁ place₁ = subst (λ r. IsTree r m₁ place₁) (sym r₁) g₁.tree in
    let (t₂, m₂, place₂, e₂, r₂, g₂, v₂, to₂) =
      create_entry-Creates t₁ m₁ place₁ p j z tree₁ (rw at₁ tt) fz in
    let q = pte_ppn (m₂.entries p j) in
    let linked : link m₂.entries t.root_ppn i ≡ some p =
      subst (λ r. link m₂.entries r i ≡ some p) refl
        (g₂.links t.root_ppn i p (λ o. let bad : root ≡ outside = sym (g₁.tree.top) ∙ o in cc)
          (rw v₁ refl)) in
    (
      p,
      q,
      t₂,
      m₂,
      place₂,
      rw (e₁, e₂) refl,
      r₂ ∙ r₁,
      subst (λ r. IsTree r m₂ place₂) r₁ g₂.tree,
      to₂ ∙ ap (λ a. child a j) at₁,
      linked,
      rw v₂ refl,
      g₁.taken ∷ g₂.taken ∷ [],
      refl,
      Extends-trans m m₁ m₂ place place₁ place₂ (g₁.taken ∷ []) (g₂.taken ∷ []) g₁.extends
          g₂.extends,
      λ a b c.
          subst (λ r. view m₂.entries r a b c ≡ view m₁.entries r a b c) r₁ (g₂.seen a b c)
          ∙ g₁.seen a b c,
    )
