-- ===== src/Mm/PageTable/Buffers/Pages.antt =====
-- The slices of a user buffer, page by page.
use rcore_os.Prelude.{
  ℕ, zero, suc, ◌+◌, ◌-◌, ◌*◌, ◌/◌, ◌%◌, ◌^◌, ◌≤◌, ◌<◌, min, ◌≡◌, refl, ap, ap₂, sym, ◌∙◌, List, [],
  ◌∷◌, ◌++◌, Option, none, some, Outcome, returns, ◌>>=◌, arith, dec_lt, length, le→leb, lt→ltb,
  ge→ltb_false, ==_of_ne, All, ℕ_discrete,
}
use rcore_os.Prelude.Bits.{bit_and_mask}
use rcore_os.Mm.Address.{to_virt_addr, page_addr, floor, step}
use rcore_os.Mm.Address.Conversions.{page_offset_lem}
use rcore_os.Mm.PageTable.{Memory, PageTable, translate, pte_ppn}
use rcore_os.Mm.PageTable.Buffers.{
  Slice, slice_end, buffers_from, Pointer, pointers, UserBuffer, user_buffer,
}

abbrev pub frame_of : Option ℕ → ℕ
frame_of (some pte) = pte_ppn pte
frame_of none = 0

-- The page that holds the byte at a user's address.
abbrev pub frame_at : PageTable → Memory → ℕ → ℕ
frame_at t m va = frame_of (translate t m (va / 4096))

-- The bytes of user memory from the address `va` on, `n` of them.
abbrev pub user_bytes : PageTable → Memory → ℕ → ℕ → List Pointer
user_bytes t m va zero = []
user_bytes t m va (suc n) = (frame_at t m va, va % 4096) ∷ user_bytes t m (va + 1) n

-- Every page that has an address from `start` on and before `end` has an entry.
abbrev pub IsMapped : PageTable → Memory → ℕ → ℕ → Type 0
IsMapped t m start end =
    (va : ℕ) → start ≤ va → va < end → (pte : ℕ) × (translate t m (va / 4096) ≡ some pte)

abbrev pub concat : UserBuffer → List Pointer
concat [] = []
concat (b ∷ rest) = b ++ concat rest

abbrev pub IsFull : List Pointer → Type 0
IsFull b = 0 < length b

pub user_bytes-append :
    (t : PageTable) (m : Memory) (p k n q : ℕ)
    → q ≡ p + k
    → user_bytes t m p k ++ user_bytes t m q n ≡ user_bytes t m p (k + n)
user_bytes-append t m p zero n q e = ap₂ (user_bytes t m) (omega arith) (omega arith)
user_bytes-append t m p (suc k) n q e =
    ap (λ xs. (frame_at t m p, p % 4096) ∷ xs) (user_bytes-append t m (p + 1) k n q (omega arith))
    ∙ ap (user_bytes t m p) {x = suc (k + n)} {y = suc k + n} (omega arith)

length-pointers : (ppn first n : ℕ) → length (pointers ppn first n) ≡ n
length-pointers ppn first zero = refl
length-pointers ppn first (suc n) = ap suc (length-pointers ppn (first + 1) n)

pointers-user_bytes :
    (t : PageTable) (m : Memory) (p n : ℕ)
    → p % 4096 + n ≤ 4096
    → pointers (frame_at t m p) (p % 4096) n ≡ user_bytes t m p n
pointers-user_bytes t m p zero h = refl
pointers-user_bytes t m p (suc zero) h = refl
pointers-user_bytes t m p (suc (suc n)) h =
    let page : (p + 1) / 4096 ≡ p / 4096 = omega arith in
    let off : (p + 1) % 4096 ≡ p % 4096 + 1 = omega arith in
    ap (λ xs. (frame_at t m p, p % 4096) ∷ xs)
      (ap₂ (λ q o. pointers (frame_of (translate t m q)) o (suc n)) (sym page) (sym off)
        ∙ pointers-user_bytes t m (p + 1) (suc n) (omega arith))

to_virt_addr_small : (a : ℕ) → a < 2 ^ 39 → to_virt_addr a ≡ a
unfolding to_virt_addr
to_virt_addr_small a h = omega (arith, bit_and_mask 39 a)

page_addr_small : (n : ℕ) → n < 2 ^ 27 → page_addr (step n) ≡ (n + 1) * 4096
unfolding page_addr step
page_addr_small n h = omega arith

abbrev next_va : ℕ → ℕ → ℕ
next_va start end = min ((start / 4096 + 1) * 4096) end

slice_end_lem :
    (start end : ℕ)
    → start < end
    → slice_end (next_va start end) ≡ start % 4096 + (next_va start end - start)
slice_end_lem start end h =
    rw (page_offset_lem (next_va start end)) (elim (ℕ_discrete (next_va start end % 4096) 0) [
      | yes whole ↦ rw (whole) (omega arith)
      | no part ↦ rw (==_of_ne (next_va start end % 4096) 0 part) (omega arith)
    ])

-- One round of the loop.
buffers_from-suc :
    (fuel : ℕ) (t : PageTable) (m : Memory) (start end pte : ℕ)
    → start < end
    → end < 2 ^ 39
    → translate t m (start / 4096) ≡ some pte
    → buffers_from (suc fuel) t m start end ≡ (
        buffers_from fuel t m (next_va start end) end >>= λ rest. returns (
          record {
            ppn = pte_ppn pte;
            first = start % 4096;
            last = start % 4096 + (next_va start end - start);
          }
          ∷ rest))
unfolding buffers_from floor
buffers_from-suc fuel t m start end pte lt small e =
    rw
      (
        lt→ltb start end lt,
        to_virt_addr_small start (omega arith),
        to_virt_addr_small end small,
        page_addr_small (start / 4096) (omega arith),
        e,
        page_offset_lem start,
        slice_end_lem start end lt,
        le→leb (start % 4096) (start % 4096 + (next_va start end - start)) (omega arith),
      )
      refl

-- What a walk over the pages has to deliver: slices that are not empty, and which hold the bytes of
-- user memory in their order.
abbrev pub Slices : PageTable → Memory → ℕ → ℕ → Outcome (List Slice) → Type 0
Slices t m start end o =
    (v : List Slice) × (o ≡ returns v)
    × (concat (user_buffer v) ≡ user_bytes t m start (end - start))
    × All IsFull (user_buffer v)

pub buffers_from-Slices :
    (fuel : ℕ) (t : PageTable) (m : Memory) (start end : ℕ)
    → end - start ≤ fuel
    → end < 2 ^ 39
    → IsMapped t m start end
    → Slices t m start end (buffers_from fuel t m start end)
unfolding buffers_from
buffers_from-Slices zero t m start end enough small mapped =
    let none : end - start ≡ 0 = omega arith in
    ([], rw (ge→ltb_false start end (omega arith)) refl, rw none refl, tt)
buffers_from-Slices (suc fuel) t m start end enough small mapped = elim (dec_lt start end) [
  | yes more ↦
      let (pte, e) = mapped start (omega arith) more in
      let next = next_va start end in
      let n = next - start in
      let (v, eq, bytes, full) =
        buffers_from-Slices fuel t m next end (omega arith) small
          (λ va h l. mapped va (omega arith) l) in
      let here : Slice = record {
        ppn = pte_ppn pte;
        first = start % 4096;
        last = start % 4096 + n;
      } in
      let size : start % 4096 + n - start % 4096 ≡ n = omega arith in
      let frame : frame_at t m start ≡ pte_ppn pte = ap frame_of e in
      (
        here ∷ v,
        buffers_from-suc fuel t m start end pte more small e ∙ rw eq refl,
        ap₂ (λ xs ys. xs ++ ys)
              (ap₂ (λ q k. pointers q (start % 4096) k) (sym frame) size
                ∙ pointers-user_bytes t m start n (omega arith))
              bytes
            ∙ user_bytes-append t m start n (end - next) next (omega arith)
            ∙ ap (user_bytes t m start) {x = n + (end - next)} {y = end - start} (omega arith),
        (
          omega (
            arith,
            length-pointers (pte_ppn pte) (start % 4096) (start % 4096 + n - start % 4096),
          ),
          full,
        ),
      )
  | no past ↦
      let none : end - start ≡ 0 = omega arith in
      ([], rw (ge→ltb_false start end (omega arith)) refl, rw none refl, tt)
]
