-- ===== src/Mm/PageTable/Buffers.antt =====
-- os/src/mm/page_table.rs: the buffers of a user program, as slices of the pages that they lie in
-- (`translated_byte_buffer`), and the iterator over their bytes (`UserBuffer`).
pub mod Pages
pub mod Iteration
pub mod Whole
mod Tests
use rcore_os.Prelude.{
  ℕ, zero, suc, ◌+◌, ◌-◌, ◌<◌, min, Bool, true, false, List, [], ◌∷◌, ◌++◌, Option, none, some,
  if◌then◌else◌, ltb, leb, ◌==◌, Outcome, returns, panics, ◌>>=◌, ◌>>◌, assert, unwrap, length,
  get_elem?, add_usize,
}
use rcore_os.Mm.Address.{to_virt_addr, page_addr, page_offset, floor, step, page_size}
use rcore_os.Mm.PageTable.{Memory, PageTable, from_token, translate, pte_ppn}

-- `ppn.get_bytes_array()[first..last]`
pub record Slice : Type 0 where
  pub ppn : ℕ
  pub first : ℕ
  pub last : ℕ

-- Where a slice of the page starting at `start_va` ends, if its last address is before `end_va`.
abbrev pub slice_end : ℕ → ℕ
slice_end end_va = if page_offset end_va == 0 then page_size else page_offset end_va

-- The loop, on fuel; where the fuel is used up it panics.
pub buffers_from : ℕ → PageTable → Memory → ℕ → ℕ → Outcome (List Slice)
buffers_from zero t m start end = if ltb start end then panics else returns []
buffers_from (suc fuel) t m start end =
    if ltb start end
    then (do
      let start_va = to_virt_addr start
      pte ← unwrap (translate t m (floor start_va))
      let end_va = min (page_addr (step (floor start_va))) (to_virt_addr end)
      assert (leb (page_offset start_va) (slice_end end_va))
      rest ← buffers_from fuel t m end_va end
      returns (
          record { ppn = pte_ppn pte; first = page_offset start_va; last = slice_end end_va }
          ∷ rest))
    else returns []

pub translated_byte_buffer : ℕ → Memory → ℕ → ℕ → Outcome (List Slice)
translated_byte_buffer token m ptr len =
    buffers_from len (from_token token) m ptr (add_usize ptr len)

-- A pointer to a byte: a page and the offset in it.
abbrev pub Pointer : Type 0
Pointer = ℕ × ℕ

-- The bytes of a page from `first` on, `n` of them.
abbrev pub pointers : ℕ → ℕ → ℕ → List Pointer
pointers ppn first zero = []
pointers ppn first (suc n) = (ppn, first) ∷ pointers ppn (first + 1) n

-- A slice as the array of its bytes.
abbrev pub slice_bytes : Slice → List Pointer
slice_bytes s = pointers s.ppn s.first (s.last - s.first)

-- `UserBuffer`
abbrev pub UserBuffer : Type 0
UserBuffer = List (List Pointer)

-- `UserBuffer::new` of slices.
abbrev pub user_buffer : List Slice → UserBuffer
user_buffer [] = []
user_buffer (s ∷ rest) = slice_bytes s ∷ user_buffer rest

-- `UserBuffer::len`
pub len : UserBuffer → ℕ
len [] = 0
len (b ∷ rest) = length b + len rest

pub record UserBufferIterator : Type 0 where
  pub buffers : UserBuffer
  pub curr_buf : ℕ
  pub pos_in_buf : ℕ

-- `UserBuffer::into_iter`
pub into_iter : UserBuffer → UserBufferIterator
into_iter b = record { buffers = b; curr_buf = 0; pos_in_buf = 0 }

-- An index out of range panics.
pub next : UserBufferIterator → Outcome (Option Pointer × UserBufferIterator)
next it = if leb (length it.buffers) it.curr_buf then returns (none, it) else (do
  buf ← unwrap (get_elem? it.buffers it.curr_buf)
  r ← unwrap (get_elem? buf it.pos_in_buf)
  returns (
    some r,
    if it.pos_in_buf + 1 == length buf
        then record it { pos_in_buf = 0; curr_buf = it.curr_buf + 1 }
        else record it { pos_in_buf = it.pos_in_buf + 1 },
  ))

-- A `for` loop over the iterator: what `fuel` calls of `next` give before the first `None`.
pub iterate : ℕ → UserBufferIterator → Outcome (List Pointer)
iterate zero it = panics
iterate (suc fuel) it = next it >>= λ r. elim r.0 [
  | none ↦ returns []
  | some p ↦ iterate fuel r.1 >>= λ rest. returns (p ∷ rest)
]
