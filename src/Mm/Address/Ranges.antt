-- ===== src/Mm/Address/Ranges.antt =====
-- `SimpleRange`: membership, overlap, and what iterating over a range gives.
use rcore_os.Prelude.{
  ℕ, zero, suc, ◌+◌, ◌-◌, ◌^◌, ◌≤◌, ◌<◌, ◌≡◌, ◌↔◌, refl, true, false, List, [], ◌∷◌, none, some,
  max, returns, panics, arith,
}
use rcore_os.Mm.Address.{
  SimpleRange, simple_range, contains, overlap_with, next, collect, collect_from,
}

-- Two ranges that are not empty and end below 2^64 - 1 overlap exactly when some page number lies
-- in both; of an empty range that lies strictly inside another, `overlap_with` answers true, though
-- no page number lies in it.
pub overlap_with_iff :
    (a b : SimpleRange)
    → a.l < 2 ^ 64 - 1
    → b.l < 2 ^ 64 - 1
    → (a.l < a.r
        → b.l < b.r
        → (overlap_with a b ≡ true) ↔ ((v : ℕ) × (contains a v ≡ true) × (contains b v ≡ true)))
      × (a.l ≡ a.r
          → b.l < a.l
          → a.l < b.r
          → (overlap_with a b ≡ true) × ((v : ℕ) → contains a v ≡ false))
unfolding overlap_with contains
overlap_with_iff a b h k = (
  λ p q. (λ e. (max a.l b.l, ground arith, ground arith), λ e. ground arith),
  λ e p q. (ground arith, λ v. ground arith),
)

-- The numbers `l`, `l + 1`, … , `n` of them.
abbrev pub count_up : ℕ → ℕ → List ℕ
count_up l zero = []
count_up l (suc n) = l ∷ count_up (l + 1) n

next-some :
    (l r : ℕ)
    → l < r
    → r < 2 ^ 64
    → next (record { current = l; end = r }) ≡ (some l, record { current = l + 1; end = r })
unfolding next
next-some l r h k = ground arith

next-none :
    (l : ℕ) → next (record { current = l; end = l }) ≡ (none, record { current = l; end = l })
unfolding next
next-none l = ground arith

collect_from-count_up :
    (n fuel l r : ℕ)
    → l + n ≡ r
    → r < 2 ^ 64
    → n ≤ fuel
    → collect_from fuel (next (record { current = l; end = r })) ≡ some (count_up l n)
unfolding collect_from
collect_from-count_up zero fuel l r e h f =
    let same : r ≡ l = omega arith in rw (same, next-none l) refl
collect_from-count_up (suc n) zero l r e h f = absurd (omega arith)
collect_from-count_up (suc n) (suc fuel) l r e h f =
    rw
      (
        next-some l r (omega arith) h,
        collect_from-count_up n fuel (l + 1) r (omega arith) h (omega arith),
      )
      refl

-- A `for` loop over a range made by `SimpleRange::new` visits exactly the page numbers from `s` on
-- and below `e`, in order, each once, and stops after `e - s` rounds; `new` panics exactly when the
-- start lies past the end.
pub collect-simple_range :
    (s e fuel : ℕ)
    → e < 2 ^ 64
    → e - s ≤ fuel
    → (s ≤ e
        → (a : SimpleRange) × (simple_range s e ≡ returns a)
          × (collect fuel a ≡ some (count_up s (e - s))))
      × (e < s → simple_range s e ≡ panics)
unfolding simple_range collect
collect-simple_range s e fuel h f = (
  λ p. (
    record { l = s; r = e },
    ground arith,
    collect_from-count_up (e - s) fuel s e (omega arith) h f,
  ),
  λ p. ground arith,
)
