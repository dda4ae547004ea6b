-- ===== src/Mm/PageTable/Leaves.antt =====
-- Changing an entry of a last table changes what its indexes lead to, and nothing else.
use rcore_os.Prelude.{
  ℕ, ◌≡◌, ◌≢◌, refl, ap, sym, ◌∙◌, true, ◌&&◌, none, some, if◌then◌else◌, ◌==◌, arith, inl, inr,
  Bool-cases, Option-cases,
}
use rcore_os.Mm.PageTable.{Memory, write_pte, is_valid}
use rcore_os.Mm.PageTable.Tree.{Place, outside, root, middle, last, child, link, leaf, view, IsTree}

abbrev pub written : (ℕ → ℕ → ℕ) → ℕ → ℕ → ℕ → ℕ → ℕ → ℕ
written e p k bits x y = if (x == p) && (y == k) then bits else e x y

-- The entry `k` of a last table `p` is set to `bits`.
module _ (root_ppn : ℕ) (m : Memory) (place : ℕ → Place) (t : IsTree root_ppn m place)
    (i j k p bits : ℕ) (there : place p ≡ last i j) where
  abbrev after : ℕ → ℕ → ℕ
  after = written m.entries p k bits

  upper_link : (x y : ℕ) → ((l n : ℕ) → place x ≢ last l n) → link after x y ≡ link m.entries x y
  upper_link x y h = elim (Bool-cases (x == p)) [
    | inl same ↦ let e : x ≡ p = ground arith in absurd (h i j (ap place e ∙ there))
    | inr other ↦ rw other refl
  ]

  pub IsTree-written : IsTree root_ppn (write_pte m (p, k) bits) place
  unfolding write_pte
  IsTree-written = record {
    frames = t.frames;
    top = t.top;
    down = λ x y q inside e.
        t.down x y q inside (sym (upper_link x y (λ l n h. inside (ap (λ a. child a y) h))) ∙ e);
    used = t.used;
  }

  link-root : (a : ℕ) → link after root_ppn a ≡ link m.entries root_ppn a
  link-root a = upper_link root_ppn a (λ l n h. let bad : root ≡ last l n = sym t.top ∙ h in cc)

  link-middle : (x a b : ℕ) → place x ≡ middle a → link after x b ≡ link m.entries x b
  link-middle x a b h = upper_link x b (λ l n q. let bad : middle a ≡ last l n = sym h ∙ q in cc)

  down-root : (a x : ℕ) → link m.entries root_ppn a ≡ some x → place x ≡ middle a
  down-root a x e =
      t.down root_ppn a x
        (λ o. let bad : middle a ≡ outside = ap (λ w. child w a) (sym t.top) ∙ o in cc) e
      ∙ ap (λ w. child w a) t.top

  down-middle :
      (x a b y : ℕ) → place x ≡ middle a → link m.entries x b ≡ some y → place y ≡ last a b
  down-middle x a b y h e =
      t.down x b y (λ o. let bad : last a b ≡ outside = ap (λ w. child w b) (sym h) ∙ o in cc) e
      ∙ ap (λ w. child w b) h

  pub view-written_self :
      (x : ℕ)
      → link m.entries root_ppn i ≡ some x
      → link m.entries x j ≡ some p
      → view after root_ppn i j k ≡ (if is_valid bits then some bits else none)
  view-written_self x e₁ e₂ =
      let self : ((p == p) && (k == k)) ≡ true = ground arith in
      rw (link-root i, e₁, link-middle x i j (down-root i x e₁), e₂, self) refl

  other_leaf :
      (a b c y : ℕ)
      → place y ≡ last a b
      → (a ≡ i → b ≡ j → c ≡ k → ⊥)
      → leaf after y c ≡ leaf m.entries y c
  other_leaf a b c y h ne = elim (Bool-cases ((y == p) && (c == k))) [
    | inl same ↦
        let sy : y ≡ p = ground arith in
        let sc : c ≡ k = ground arith in
        let places : last a b ≡ last i j = sym h ∙ ap place sy ∙ there in
        absurd (ne (cc places) (cc places) sc)
    | inr other ↦ rw other refl
  ]

  pub view-written_other :
      (a b c : ℕ)
      → (a ≡ i → b ≡ j → c ≡ k → ⊥)
      → view after root_ppn a b c ≡ view m.entries root_ppn a b c
  view-written_other a b c ne = rw (link-root a) (elim (Option-cases (link m.entries root_ppn a)) [
    | inl nothing ↦ rw nothing refl
    | inr (x, e) ↦
        rw (e, link-middle x a b (down-root a x e))
          (elim (Option-cases (link m.entries x b)) [
            | inl nothing ↦ rw nothing refl
            | inr (y, e₂) ↦ rw e₂ (other_leaf a b c y (down-middle x a b y (down-root a x e) e₂) ne)
          ])
  ])
