-- ===== src/Mm/PageTable/Unmapping.antt =====
-- `unmap` undoes `map`: it takes the entry of its page away, and nothing else.
use rcore_os.Prelude.{
  ℕ, ◌^◌, ◌<◌, ◌≡◌, refl, ap, sym, ◌∙◌, true, false, Option, none, some, Outcome, returns, panics,
  inl, inr, Option-cases, ==_of_ne,
}
use rcore_os.Mm.Address.Conversions.{third, second, first}
use rcore_os.Mm.PageTable.{Memory, PageTable, write_pte, find_pte, unmap, is_valid, pte_empty}
use rcore_os.Mm.PageTable.Entries.{is_valid_lem}
use rcore_os.Mm.PageTable.Tree.{Place, outside, middle, last, child, link, leaf, IsTree}
use rcore_os.Mm.PageTable.Lookup.{lookup, lookup-view, find_pte-ends}
use rcore_os.Mm.PageTable.Mapping.{write-Changes, Changes, leaf-some, leaf-none, view-leaf}

-- What unmapping has to deliver.
abbrev pub Unmaps : PageTable → Memory → (ℕ → Place) → ℕ → Outcome Memory → Type 0
Unmaps t m place vpn o =
    (m' : Memory) × (o ≡ returns m')
    × Changes t m vpn none t m' place
    × (m'.allocator ≡ m.allocator)
    × ((x k : ℕ) → place x ≡ outside → m'.entries x k ≡ m.entries x k)

unmap_found :
    (t : PageTable) (m : Memory) (vpn q k : ℕ)
    → find_pte t m vpn ≡ some (q, k)
    → (is_valid (m.entries q k) ≡ true → unmap t m vpn ≡ returns (write_pte m (q, k) pte_empty))
      × (is_valid (m.entries q k) ≡ false → unmap t m vpn ≡ panics)
unfolding unmap
unmap_found t m vpn q k e = (λ v. rw (e, v) refl, λ v. rw (e, v) refl)

unmap_lost :
    (t : PageTable) (m : Memory) (vpn : ℕ) → find_pte t m vpn ≡ none → unmap t m vpn ≡ panics
unfolding unmap
unmap_lost t m vpn e = rw e refl

UnmapsOrPanics : PageTable → Memory → (ℕ → Place) → ℕ → Option ℕ → Outcome Memory → Type 0
UnmapsOrPanics t m place vpn found o =
    ((bits : ℕ) → found ≡ some bits → Unmaps t m place vpn o) × (found ≡ none → o ≡ panics)

lost :
    (t : PageTable) (m : Memory) (place : ℕ → Place) (vpn : ℕ)
    → lookup t m vpn ≡ none
    → find_pte t m vpn ≡ none
    → UnmapsOrPanics t m place vpn (lookup t m vpn) (unmap t m vpn)
unfolding UnmapsOrPanics
lost t m place vpn l e =
    (λ bits is. absurd (let bad : none ≡ some bits = sym l ∙ is in cc), λ _. unmap_lost t m vpn e)

found :
    (t : PageTable) (m : Memory) (place : ℕ → Place) (vpn p q : ℕ)
    → IsTree t.root_ppn m place
    → vpn < 2 ^ 27
    → place q ≡ last (third vpn) (second vpn)
    → link m.entries t.root_ppn (third vpn) ≡ some p
    → link m.entries p (second vpn) ≡ some q
    → UnmapsOrPanics t m place vpn (lookup t m vpn) (unmap t m vpn)
unfolding UnmapsOrPanics pte_empty write_pte
found t m place vpn p q tree small there l₁ l₂ =
    let e : find_pte t m vpn ≡ some (q, first vpn) = find_pte-ends t m vpn ∙ rw (l₁, l₂) refl in
    let is_leaf : lookup t m vpn ≡ leaf m.entries q (first vpn) =
      lookup-view t m vpn
      ∙ view-leaf m.entries t.root_ppn p q (third vpn) (second vpn) (first vpn) l₁ l₂ in
    let (taken, free) = unmap_found t m vpn q (first vpn) e in
    (
      λ bits is. (
        write_pte m (q, first vpn) pte_empty,
        taken (leaf-some m.entries q (first vpn) bits (sym is_leaf ∙ is)),
        write-Changes t t m m place vpn p q pte_empty none small refl tree there l₁ l₂
            (λ a b c. refl) (rw (is_valid_lem 0) refl),
        refl,
        λ x k out.
            rw
              (==_of_ne x q (λ e.
                let bad : last (third vpn) (second vpn) ≡ outside =
                  sym there ∙ ap place (sym e) ∙ out in
                cc))
              refl,
      ),
      λ no. free (leaf-none m.entries q (first vpn) (sym is_leaf ∙ no)),
    )

-- For a table that is a tree, `unmap` of a page that has a valid entry returns: the page then has
-- none, every other page is translated as before, and the table is a tree still; the free frames and
-- the pages outside the table stay as they are. `unmap` of a page that has none panics.
pub unmap-Unmaps :
    (t : PageTable) (m : Memory) (place : ℕ → Place) (vpn : ℕ)
    → IsTree t.root_ppn m place
    → vpn < 2 ^ 27
    → ((bits : ℕ) → lookup t m vpn ≡ some bits → Unmaps t m place vpn (unmap t m vpn))
      × (lookup t m vpn ≡ none → unmap t m vpn ≡ panics)
unfolding UnmapsOrPanics
unmap-Unmaps t m place vpn tree small =
    elim (Option-cases (link m.entries t.root_ppn (third vpn))) [
      | inl a ↦
          lost t m place vpn (lookup-view t m vpn ∙ rw a refl) (find_pte-ends t m vpn ∙ rw a refl)
      | inr (p, a) ↦
          let at : place p ≡ middle (third vpn) =
            tree.down t.root_ppn (third vpn) p
              (λ o.
                let bad : middle (third vpn) ≡ outside =
                  ap (λ w. child w (third vpn)) (sym tree.top) ∙ o in
                cc)
              a
            ∙ ap (λ w. child w (third vpn)) tree.top in
          elim (Option-cases (link m.entries p (second vpn))) [
            | inl b ↦
                lost t m place vpn (lookup-view t m vpn ∙ rw (a, b) refl)
                  (find_pte-ends t m vpn ∙ rw (a, b) refl)
            | inr (q, b) ↦
                let there : place q ≡ last (third vpn) (second vpn) =
                  tree.down p (second vpn) q
                    (λ o.
                      let bad : last (third vpn) (second vpn) ≡ outside =
                        ap (λ w. child w (second vpn)) (sym at) ∙ o in
                      cc)
                    b
                  ∙ ap (λ w. child w (second vpn)) at in
                found t m place vpn p q tree small there a b
          ]
    ]
