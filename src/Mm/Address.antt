-- ===== src/Mm/Address.antt =====
-- os/src/mm/address.rs: physical and virtual addresses and page numbers of Sv39, and ranges of
-- page numbers. Each of the four newtypes over `usize` is the number that it wraps.
use mathlib.Core.Option
pub mod Conversions
pub mod Ranges
mod Tests
use rcore_os.Prelude.{
  ℕ, zero, suc, ◌+◌, ◌-◌, ◌*◌, ◌/◌, ◌%◌, ◌^◌, Bool, true, false, ◌&&◌, List, [], ◌∷◌, Option, none,
  some, if◌then◌else◌, ltb, leb, ◌==◌, add_usize, sub_usize, usize_mod, bit_and, Outcome, returns,
  panics, ◌>>=◌, ◌>>◌, assert,
}

abbrev pub page_size : ℕ
page_size = 0x1000

abbrev pub page_size_bits : ℕ
page_size_bits = 12

abbrev pub pa_width_sv39 : ℕ
pa_width_sv39 = 56

abbrev pub va_width_sv39 : ℕ
va_width_sv39 = 39

abbrev pub ppn_width_sv39 : ℕ
ppn_width_sv39 = pa_width_sv39 - page_size_bits

abbrev pub vpn_width_sv39 : ℕ
vpn_width_sv39 = va_width_sv39 - page_size_bits

abbrev pub pa_mask : ℕ
pa_mask = 2 ^ pa_width_sv39 - 1

abbrev pub va_mask : ℕ
va_mask = 2 ^ va_width_sv39 - 1

abbrev pub ppn_mask : ℕ
ppn_mask = 2 ^ ppn_width_sv39 - 1

abbrev pub vpn_mask : ℕ
vpn_mask = 2 ^ vpn_width_sv39 - 1

abbrev pub pg_ofs_mask : ℕ
pg_ofs_mask = page_size - 1

-- `x << k` on `usize`.
abbrev pub shl : ℕ → ℕ → ℕ
shl x k = x * 2 ^ k % usize_mod

-- `x >> k`.
abbrev pub shr : ℕ → ℕ → ℕ
shr x k = x / 2 ^ k

-- `From<usize>` of the four types.
unfoldable pub to_phys_addr : ℕ → ℕ
to_phys_addr value = bit_and value pa_mask

unfoldable pub to_virt_addr : ℕ → ℕ
to_virt_addr value = bit_and value va_mask

unfoldable pub to_phys_page_num : ℕ → ℕ
to_phys_page_num value = bit_and value ppn_mask

unfoldable pub to_virt_page_num : ℕ → ℕ
to_virt_page_num value = bit_and value vpn_mask

-- The methods that `PhysAddr` and `VirtAddr` share.
unfoldable pub page_offset : ℕ → ℕ
page_offset a = bit_and a pg_ofs_mask

unfoldable pub floor : ℕ → ℕ
floor a = a / page_size

unfoldable pub ceil : ℕ → ℕ
ceil a = sub_usize (add_usize a page_size) 1 / page_size

unfoldable pub aligned : ℕ → Bool
unfolding page_offset
aligned a = page_offset a == 0

-- `From<PhysPageNum> for PhysAddr` and `From<VirtPageNum> for VirtAddr`.
unfoldable pub page_addr : ℕ → ℕ
page_addr n = shl n page_size_bits

-- `From<PhysAddr> for PhysPageNum` and `From<VirtAddr> for VirtPageNum`.
unfoldable pub page_num : ℕ → Outcome ℕ
unfolding page_offset floor
page_num a = do assert (page_offset a == 0); returns (floor a)

-- The loop of `VirtPageNum::indexes`, which fills `idx` from its last entry to its first:
-- `indexes_loop n vpn` is the array with `idx[0..n]` filled from `vpn`, followed by `done`.
indexes_loop : ℕ → ℕ → List ℕ → List ℕ
indexes_loop zero vpn done = done
indexes_loop (suc i) vpn done = indexes_loop i (shr vpn 9) (bit_and vpn 0x1ff ∷ done)

unfoldable pub indexes : ℕ → List ℕ
unfolding indexes_loop
indexes vpn = indexes_loop 3 vpn []

-- `StepByOne::step`
unfoldable pub step : ℕ → ℕ
step n = add_usize n 1

-- `SimpleRange<T>`, from `l` on and below `r`.
pub record SimpleRange : Type 0 where
  pub l : ℕ
  pub r : ℕ

-- `SimpleRange::new`
unfoldable pub simple_range : ℕ → ℕ → Outcome SimpleRange
simple_range s e = do assert (leb s e); returns (record { l = s; r = e })

unfoldable pub contains : SimpleRange → ℕ → Bool
contains a v = leb a.l v && ltb v a.r

unfoldable pub overlap_with : SimpleRange → SimpleRange → Bool
unfolding step
overlap_with a b = leb (step b.l) a.r && leb (step a.l) b.r

-- `SimpleRangeIterator`
pub record SimpleRangeIterator : Type 0 where
  pub current : ℕ
  pub end : ℕ

unfoldable pub into_iter : SimpleRange → SimpleRangeIterator
into_iter a = record { current = a.l; end = a.r }

unfoldable pub next : SimpleRangeIterator → Option ℕ × SimpleRangeIterator
unfolding step
next it =
    if it.current == it.end
    then (none, it)
    else (some it.current, record it { current = step it.current })

-- A `for` loop over an iterator: the items that `fuel` calls of `next` give before the first
-- `None`; no result if that is not reached.
collect_from : ℕ → Option ℕ × SimpleRangeIterator → Option (List ℕ)
collect_from fuel (none, it) = some []
collect_from zero (some x, it) = none
collect_from (suc fuel) (some x, it) = Option.map (λ xs. x ∷ xs) (collect_from fuel (next it))

unfoldable pub collect : ℕ → SimpleRange → Option (List ℕ)
unfolding collect_from next into_iter
collect fuel a = collect_from fuel (next (into_iter a))
