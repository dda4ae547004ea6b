-- ===== src/Mm/PageTable/Buffers/Whole.antt =====
-- A user buffer from the address and length that a system call gets to the bytes that it visits.
use rcore_os.Prelude.{
  ℕ, zero, suc, ◌+◌, ◌-◌, ◌^◌, ◌<◌, ◌≡◌, refl, ap, ◌∙◌, List, [], ◌∷◌, Outcome, returns, arith,
  length, length-append, add_usize,
}
use rcore_os.Mm.PageTable.{Memory, PageTable, from_token}
use rcore_os.Mm.PageTable.Buffers.{
  Slice, UserBuffer, user_buffer, into_iter, iterate, len, buffers_from, translated_byte_buffer,
}
use rcore_os.Mm.PageTable.Buffers.Pages.{concat, IsMapped, user_bytes, buffers_from-Slices}
use rcore_os.Mm.PageTable.Buffers.Iteration.{iterate-into_iter}

len-concat : (b : UserBuffer) → len b ≡ length (concat b)
unfolding len
len-concat [] = refl
len-concat (c ∷ rest) = omega (arith, len-concat rest, length-append c (concat rest))

length-user_bytes : (t : PageTable) (m : Memory) (va n : ℕ) → length (user_bytes t m va n) ≡ n
length-user_bytes t m va zero = refl
length-user_bytes t m va (suc n) = ap suc (length-user_bytes t m (va + 1) n)

-- What translating a buffer of `n` bytes from `ptr` has to deliver: slices that are `n` bytes long
-- together, over which the iterator visits the bytes of user memory in their order.
abbrev pub Visits : PageTable → Memory → ℕ → ℕ → Outcome (List Slice) → Type 0
Visits t m ptr n o =
    (v : List Slice) × (o ≡ returns v)
    × (len (user_buffer v) ≡ n)
    × (iterate (suc n) (into_iter (user_buffer v)) ≡ returns (user_bytes t m ptr n))

-- `translated_byte_buffer` of a range below 2^39 whose pages all have entries does not panic. The
-- user buffer of its slices is as long as the range, and iterating over it visits the bytes of the
-- range one by one, each in the frame of its own page.
pub translated_byte_buffer-Visits :
    (token : ℕ) (m : Memory) (ptr n : ℕ)
    → ptr + n < 2 ^ 39
    → IsMapped (from_token token) m ptr (ptr + n)
    → Visits (from_token token) m ptr n (translated_byte_buffer token m ptr n)
unfolding translated_byte_buffer
translated_byte_buffer-Visits token m ptr n small mapped =
    let t = from_token token in
    let whole : add_usize ptr n ≡ ptr + n = omega arith in
    let size : ptr + n - ptr ≡ n = omega arith in
    let (v, e, bytes, full) = buffers_from-Slices n t m ptr (ptr + n) (omega arith) small mapped in
    let content = bytes ∙ ap (user_bytes t m ptr) size in
    let long = len-concat (user_buffer v) ∙ ap length content ∙ length-user_bytes t m ptr n in
    (
      v,
      ap (buffers_from n t m ptr) whole ∙ e,
      long,
      iterate-into_iter (user_buffer v) (suc n) full (omega arith) ∙ ap returns content,
    )
