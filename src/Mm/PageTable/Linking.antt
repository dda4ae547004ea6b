-- ===== src/Mm/PageTable/Linking.antt =====
-- Linking a new page into a table changes no entry that the indexes lead to.
use rcore_os.Prelude.{
  ℕ, ◌^◌, ◌<◌, ◌≡◌, ◌≢◌, ◌⊎◌, refl, ap, sym, subst, ◌∙◌, true, ◌&&◌, Option, none, some,
  if◌then◌else◌, ◌==◌, arith, inl, inr, Bool-cases, Option-cases, ==_self, ==_of_ne,
}
use rcore_os.Mm.FrameAllocator.Free.{is_free}
use rcore_os.Mm.PageTable.{Memory}
use rcore_os.Mm.PageTable.Tree.{
  Place, outside, root, middle, last, child, link, leaf, from_last, view, IsTree, IsUpper,
  upper-inside, linked, link-linked_other, leaf-linked_other, link-linked_self, link-linked_new,
}

-- The table `root_ppn` of the memory `m`, where a page `p` of an upper level has an invalid entry
-- `i`, and a free frame `q` that is to become the table of that entry.
module _ (root_ppn : ℕ) (m : Memory) (place : ℕ → Place) (t : IsTree root_ppn m place) (p i q : ℕ)
    (upper : IsUpper (place p)) (invalid : link m.entries p i ≡ none)
    (free : is_free m.allocator q ≡ true) (small : q < 2 ^ 44) where
  abbrev pub after : ℕ → ℕ → ℕ
  after = linked m.entries p i q

  pub inside-ne : (x : ℕ) → place x ≢ outside → x ≢ q
  inside-ne x h same = h (ap place same ∙ t.used q free)

  new-ne : q ≢ p
  new-ne same = upper-inside (place p) upper (ap place (sym same) ∙ t.used q free)

  same_leaf : (x k : ℕ) (j l : ℕ) → place x ≡ last j l → leaf after x k ≡ leaf m.entries x k
  same_leaf x k j l h =
      leaf-linked_other m.entries p i q x k
        (elim (Bool-cases ((x == p) && (k == i))) [
          | inl here ↦
              let same : x ≡ p = ground arith in
              absurd (subst IsUpper (ap place (sym same) ∙ h) upper)
          | inr there ↦ there
        ])
        (inside-ne x (λ o. let bad : last j l ≡ outside = sym h ∙ o in cc))

  -- A page whose entry `i` is what is linked leads nowhere before and after.
  same_from_last :
      (x k j l : ℕ) (o : Option ℕ)
      → ((y : ℕ) → o ≡ some y → place y ≡ last j l)
      → from_last after k o ≡ from_last m.entries k o
  same_from_last x k j l none h = refl
  same_from_last x k j l (some y) h = same_leaf y k j l (h y refl)

  pub same_link :
      (x j : ℕ)
      → place x ≢ outside
      → (link after x j ≡ link m.entries x j)
        ⊎ ((link m.entries x j ≡ none) × (link after x j ≡ some q))
  same_link x j h = elim (Bool-cases ((x == p) && (j == i))) [
    | inl here ↦
        let sx : x ≡ p = ground arith in
        let sj : j ≡ i = ground arith in
        inr (rw (sx, sj) invalid, link-linked_self m.entries p i q x j small here)
    | inr there ↦ inl (link-linked_other m.entries p i q x j there (inside-ne x h))
  ]

  same_from_middle :
      (x j k l : ℕ)
      → place x ≡ middle l
      → from_last after k (link after x j) ≡ from_last m.entries k (link m.entries x j)
  same_from_middle x j k l h =
      elim (same_link x j (λ o. let bad : middle l ≡ outside = sym h ∙ o in cc)) [
        | inl same ↦ rw same (
            same_from_last x k l j (link m.entries x j) (λ y e.
              t.down x j y
                (λ o. let bad : last l j ≡ outside = ap (λ a. child a j) (sym h) ∙ o in cc) e
              ∙ ap (λ a. child a j) h))
        | inr (none_before, new_after) ↦
            rw (none_before, new_after) (link-linked_new m.entries p i q k new-ne).1
      ]

  -- What the indexes lead to is as before.
  pub view-linked : (a b c : ℕ) → view after root_ppn a b c ≡ view m.entries root_ppn a b c
  view-linked a b c =
      elim (same_link root_ppn a (λ o. let bad : root ≡ outside = sym t.top ∙ o in cc)) [
        | inl same ↦ rw same (elim (Option-cases (link m.entries root_ppn a)) [
          | inl nothing ↦ rw nothing refl
          | inr (x, e) ↦
              let down : place x ≡ middle a =
                t.down root_ppn a x
                  (λ o. let bad : middle a ≡ outside = ap (λ w. child w a) (sym t.top) ∙ o in cc) e
                ∙ ap (λ w. child w a) t.top in
              rw e (same_from_middle x b c a down)
        ])
        | inr (none_before, new_after) ↦
            rw (none_before, new_after, (link-linked_new m.entries p i q b new-ne).0) refl
      ]

  abbrev pub place_after : ℕ → Place
  place_after x = if x == q then child (place p) i else place x

  -- The places after linking agree with the entries.
  pub places :
      (x y z : ℕ)
      → child (place_after x) y ≢ outside
      → link after x y ≡ some z
      → place_after z ≡ child (place_after x) y
  places x y z inside e = elim (Bool-cases (x == q)) [
    | inl new ↦
        let same : x ≡ q = ground arith in
        let nowhere : link after x y ≡ none =
          rw same (link-linked_new m.entries p i q y new-ne).0 in
        absurd (let bad : none ≡ some z = sym nowhere ∙ e in cc)
    | inr old ↦
        let was : place_after x ≡ place x = rw old refl in
        let in_before : child (place x) y ≢ outside = subst (λ a. child a y ≢ outside) was inside in
        elim (Bool-cases ((x == p) && (y == i))) [
          | inl here ↦
              let sx : x ≡ p = ground arith in
              let sy : y ≡ i = ground arith in
              let to : z ≡ q =
                let same : some q ≡ some z =
                  sym (link-linked_self m.entries p i q x y small here) ∙ e in
                cc in
              rw (to, ==_self q)
                (ap (λ a. child a i) (ap place (sym sx) ∙ sym was)
                  ∙ ap (child (place_after x)) (sym sy))
          | inr there ↦
              let e₀ : link m.entries x y ≡ some z =
                sym (link-linked_other m.entries p i q x y there (λ n. ground arith)) ∙ e in
              let down : place z ≡ child (place x) y = t.down x y z in_before e₀ in
              rw (==_of_ne z q (inside-ne z (λ o. in_before (sym down ∙ o))))
                (down ∙ ap (λ a. child a y) (sym was))
        ]
  ]
