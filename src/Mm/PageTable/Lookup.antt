-- ===== src/Mm/PageTable/Lookup.antt =====
-- What a page is translated to, by the three steps of the walk.
use rcore_os.Prelude.{
  ℕ, ◌≡◌, refl, [], ◌∷◌, Option, none, some, if◌then◌else◌, inl, inr, Bool-cases, Option-cases,
}
use rcore_os.Mm.Address.Conversions.{indexes_lem, third, second, first}
use rcore_os.Mm.PageTable.{Memory, PageTable, find_from, find_pte, translate, is_valid, pte_ppn}
use rcore_os.Mm.PageTable.Tree.{link, view}

abbrev pub valid_one : Option ℕ → Option ℕ
valid_one none = none
valid_one (some bits) = if is_valid bits then some bits else none

-- What `translate` finds for a page, if it is valid.
abbrev pub lookup : PageTable → Memory → ℕ → Option ℕ
lookup t m vpn = valid_one (translate t m vpn)

-- Where the walk ends.
abbrev pub end_last : ℕ → Option ℕ → Option (ℕ × ℕ)
end_last k none = none
end_last k (some q) = some (q, k)

abbrev pub end_middle : (ℕ → ℕ → ℕ) → ℕ → ℕ → Option ℕ → Option (ℕ × ℕ)
end_middle e j k none = none
end_middle e j k (some p) = end_last k (link e p j)

abbrev pub ends : (ℕ → ℕ → ℕ) → ℕ → ℕ → ℕ → ℕ → Option (ℕ × ℕ)
ends e root_ppn i j k = end_middle e j k (link e root_ppn i)

find_from-ends : (e : ℕ → ℕ → ℕ) (p i j k : ℕ) → find_from e (i ∷ j ∷ k ∷ []) p ≡ ends e p i j k
unfolding find_from
find_from-ends e p i j k = elim (Bool-cases (is_valid (e p i))) [
  | inl v ↦ elim (Bool-cases (is_valid (e (pte_ppn (e p i)) j))) [
    | inl w ↦ rw (v, find_from, w) refl
    | inr w ↦ rw (v, find_from, w) refl
  ]
  | inr v ↦ rw (v, find_from) refl
]

pub find_pte-ends :
    (t : PageTable) (m : Memory) (vpn : ℕ)
    → find_pte t m vpn ≡ ends m.entries t.root_ppn (third vpn) (second vpn) (first vpn)
unfolding find_pte
find_pte-ends t m vpn =
    rw (indexes_lem vpn) (find_from-ends m.entries t.root_ppn (third vpn) (second vpn) (first vpn))

pub lookup-view :
    (t : PageTable) (m : Memory) (vpn : ℕ)
    → lookup t m vpn ≡ view m.entries t.root_ppn (third vpn) (second vpn) (first vpn)
unfolding translate
lookup-view t m vpn =
    rw (find_pte-ends t m vpn) (elim (Option-cases (link m.entries t.root_ppn (third vpn))) [
      | inl a ↦ rw a refl
      | inr (p, a) ↦ rw a (elim (Option-cases (link m.entries p (second vpn))) [
        | inl b ↦ rw b refl
        | inr (q, b) ↦ rw b refl
      ])
    ])
