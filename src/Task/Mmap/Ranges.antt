-- ===== src/Task/Mmap/Ranges.antt =====
-- When a range of pages is free to be mapped, and which addresses the page numbers stand for.
use rcore_os.Prelude.{
  ℕ, zero, suc, ◌+◌, ◌^◌, ◌≤◌, ◌<◌, ◌≡◌, ◌↔◌, refl, sym, ◌∙◌, ap, subst, add_usize, true, false,
  List, [], ◌∷◌, Option, none, some, All, ◌==◌, leb, arith, inl, inr, Bool-cases, returns, panics,
}
use rcore_os.Prelude.Bits.{bit_and_mask}
use rcore_os.Mm.Address.{
  SimpleRange, simple_range, contains, overlap_with, floor, ceil, page_addr, to_virt_addr,
}
use rcore_os.Mm.PageTable.{Memory, PageTable, translate, is_valid}
use rcore_os.Mm.PageTable.Lookup.{lookup, valid_one}
use rcore_os.Mm.MemorySet.{pages}
use rcore_os.Task.Mmap.{
  Reserve, Process, apart_from, valid_entry, unmapped_from, vpn_range_free, range_of,
}

pub floor-page_addr : (n : ℕ) → n ≤ 2 ^ 27 → floor (page_addr n) ≡ n
unfolding floor page_addr
floor-page_addr n h = omega arith

pub ceil-page_addr : (n : ℕ) → n ≤ 2 ^ 27 → ceil (page_addr n) ≡ n
unfolding ceil page_addr
ceil-page_addr n h = omega arith

-- A range of pages of virtual memory.
pub record IsPages (r : SimpleRange) : Type 0 where
  pub order : r.l ≤ r.r
  pub small : r.r ≤ 2 ^ 27

-- No page is in two ranges that do not overlap.
pub overlap_with-apart :
    (a b : SimpleRange) (vpn : ℕ)
    → IsPages a
    → IsPages b
    → overlap_with a b ≡ false
    → contains a vpn ≡ true
    → contains b vpn ≡ false
unfolding overlap_with contains
overlap_with-apart a b vpn p q h c =
    let x = p.order in let y = p.small in let z = q.order in let w = q.small in ground arith

pub overlap_with_comm : (a b : SimpleRange) → overlap_with a b ≡ overlap_with b a
unfolding overlap_with
overlap_with_comm a b = ground arith

pub valid_entry-none : (o : Option ℕ) → valid_entry o ≡ false → valid_one o ≡ none
unfolding valid_entry
valid_entry-none none h = refl
valid_entry-none (some pte) h = rw h refl

pub none-valid_entry : (o : Option ℕ) → valid_one o ≡ none → valid_entry o ≡ false
unfolding valid_entry
none-valid_entry none h = refl
none-valid_entry (some pte) h = elim (Bool-cases (is_valid pte)) [
  | inl v ↦ let bad : some pte ≡ none = rw v at h in cc
  | inr v ↦ v
]

apart_from-All :
    (r : SimpleRange) (vs : List Reserve)
    → (apart_from r vs ≡ true) ↔ All (λ v. overlap_with r v.range ≡ false) vs
unfolding apart_from
apart_from-All r [] = (λ h. tt, λ h. refl)
apart_from-All r (v ∷ vs) = (
  λ h. elim (Bool-cases (overlap_with r v.range)) [
    | inl o ↦ absurd (let bad : false ≡ true = rw o at h in cc)
    | inr o ↦ (o, (apart_from-All r vs).0 (rw o at h))
  ],
  λ a. rw a.0 ((apart_from-All r vs).1 a.1),
)

unmapped_from-lookup :
    (n : ℕ) (t : PageTable) (m : Memory) (vpn : ℕ)
    → (unmapped_from n t m vpn ≡ true) ↔ ((q : ℕ) → vpn ≤ q → q < vpn + n → lookup t m q ≡ none)
unfolding unmapped_from
unmapped_from-lookup zero t m vpn = (λ h q a b. absurd (omega arith), λ h. refl)
unmapped_from-lookup (suc n) t m vpn = (
  λ h. elim (Bool-cases (valid_entry (translate t m vpn))) [
    | inl v ↦ absurd (let bad : false ≡ true = rw v at h in cc)
    | inr v ↦ λ q a b. elim (Bool-cases (q == vpn)) [
      | inl e ↦
          let same : vpn ≡ q = ground arith in
          ap (lookup t m) (sym same) ∙ valid_entry-none (translate t m vpn) v
      | inr e ↦ (unmapped_from-lookup n t m (vpn + 1)).0 (rw v at h) q (ground arith) (omega arith)
    ]
  ],
  λ a.
      rw (none-valid_entry (translate t m vpn) (a vpn (omega arith) (omega arith)))
        ((unmapped_from-lookup n t m (vpn + 1)).1 (λ q b c. a q (omega arith) (omega arith))),
)

-- `vpn_range_free` answers true exactly when the range overlaps no reserve of the process and no
-- page of it is mapped.
pub vpn_range_free_iff :
    (p : Process) (m : Memory) (r : SimpleRange)
    → r.l ≤ r.r
    → (vpn_range_free p m r ≡ true) ↔ (
        All (λ v. overlap_with r v.range ≡ false) p.mmap_mapped
        × ((q : ℕ) → r.l ≤ q → q < r.r → lookup p.memory_set.page_table m q ≡ none))
unfolding vpn_range_free
vpn_range_free_iff p m r order =
    let reserves = apart_from-All r p.mmap_mapped in
    let mapped = unmapped_from-lookup (pages r) p.memory_set.page_table m r.l in
    (
      λ h. elim (Bool-cases (apart_from r p.mmap_mapped)) [
        | inl a ↦ (reserves.0 a, λ q b c. mapped.0 (rw a at h) q b (omega arith))
        | inr a ↦ absurd (let bad : false ≡ true = rw a at h in cc)
      ],
      λ (a, b). rw (reserves.1 a) (mapped.1 (λ q c d. b q c (omega arith))),
    )

simple_range-IsPages :
    (s e : ℕ) (r : SimpleRange) → e ≤ 2 ^ 27 → simple_range s e ≡ returns r → IsPages r
unfolding simple_range
simple_range-IsPages s e r small h = elim (Bool-cases (leb s e)) [
  | inl le ↦
      let made : returns (record { l = s; r = e }) ≡ returns r = rw le at h in
      let same : record { l = s; r = e } ≡ r = cc in
      subst IsPages same (record { order = ground arith; small = small })
  | inr gt ↦ absurd (let bad : panics ≡ returns r = rw gt at h in cc)
]

ceil-small : (va : ℕ) → va < 2 ^ 39 → ceil va ≤ 2 ^ 27
unfolding ceil
ceil-small va h = omega arith

pub to_virt_addr_small : (x : ℕ) → to_virt_addr x < 2 ^ 39
unfolding to_virt_addr
to_virt_addr_small x = rw (bit_and_mask 39 x) (omega arith)

pub range_of-IsPages :
    (start_va len : ℕ) (r : SimpleRange) → range_of start_va len ≡ returns r → IsPages r
unfolding range_of
range_of-IsPages start_va len r h =
    simple_range-IsPages (floor start_va) (ceil (to_virt_addr (add_usize start_va len))) r
      (ceil-small (to_virt_addr (add_usize start_va len))
        (to_virt_addr_small (add_usize start_va len)))
      h
