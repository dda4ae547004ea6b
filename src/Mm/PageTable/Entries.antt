-- ===== src/Mm/PageTable/Entries.antt =====
-- What is put into a page table entry is what is read from it.
use rcore_os.Prelude.{
  ℕ, ◌+◌, ◌-◌, ◌*◌, ◌/◌, ◌^◌, ◌%◌, ◌<◌, ◌≡◌, true, ◌==◌, bit_and, bit_or, arith, ◌∙◌, ap,
}
use rcore_os.Prelude.Bits.{bit_and_mask, bit_or_low, bit_or_half, or_zero_right}
use rcore_os.Mm.Address.Conversions.{to_phys_page_num_small}
use rcore_os.Mm.PageTable.{pte_new, pte_ppn, pte_flags, is_valid, flag_v}

pub pte_new_lem : (n f : ℕ) → n < 2 ^ 44 → f < 2 ^ 8 → pte_new n f ≡ n * 1024 + f
unfolding pte_new
pte_new_lem n f h k =
    let small : n * 2 ^ 10 % 2 ^ 64 ≡ n * 2 ^ 10 = omega arith in
    rw small (bit_or_low 10 n f (omega arith))

pub pte_ppn_lem : (bits : ℕ) → pte_ppn bits ≡ bits / 1024 % 2 ^ 44
unfolding pte_ppn
pte_ppn_lem bits =
    let cut : bit_and (bits / 1024) (2 ^ 44 - 1) ≡ bits / 1024 % 2 ^ 44 =
      bit_and_mask 44 (bits / 1024) in
    to_phys_page_num_small (bit_and (bits / 1024) (2 ^ 44 - 1)) (omega (arith, cut)) ∙ cut

pub pte_ppn-lt : (bits : ℕ) → pte_ppn bits < 2 ^ 44
pte_ppn-lt bits = omega (arith, pte_ppn_lem bits)

pub pte_flags_lem : (bits : ℕ) → pte_flags bits ≡ bits % 256
unfolding pte_flags
pte_flags_lem bits = bit_and_mask 8 bits

-- A new entry has the page number and the flags that it is made of.
pub pte_ppn-pte_new :
    (n f : ℕ) → n < 2 ^ 44 → f < 2 ^ 8 → (pte_ppn (pte_new n f) ≡ n) × (pte_flags (pte_new n f) ≡ f)
pte_ppn-pte_new n f h k =
    let e = pte_new_lem n f h k in
    (omega (arith, e, pte_ppn_lem (pte_new n f)), omega (arith, e, pte_flags_lem (pte_new n f)))

pub is_valid_lem : (bits : ℕ) → is_valid bits ≡ (bits % 2 == 1)
unfolding is_valid
is_valid_lem bits =
    ap (λ f. bit_and f 1 == 1) (pte_flags_lem bits) ∙ ground (arith, bit_and_mask 1 (bits % 256))

pub is_valid-pte_new : (n f : ℕ) → n < 2 ^ 44 → f < 2 ^ 8 → is_valid (pte_new n (bit_or f 1)) ≡ true
is_valid-pte_new n f h k =
    let odd : bit_or f 1 ≡ bit_or (f / 2) (1 / 2) * 2 + 1 = omega (arith, bit_or_half f 1) in
    let rest : bit_or (f / 2) 0 ≡ f / 2 = or_zero_right (f / 2) in
    rw
      (
        is_valid_lem (pte_new n (bit_or f 1)),
        pte_new_lem n (bit_or f 1) h (omega (arith, odd, rest)),
      )
      (ground (arith, odd))

-- An entry that only points on is valid.
pub pte_new-points : (n : ℕ) → n < 2 ^ 44 → is_valid (pte_new n flag_v) ≡ true
pte_new-points n h =
    rw (is_valid_lem (pte_new n flag_v), pte_new_lem n 1 h (omega arith)) (ground arith)
