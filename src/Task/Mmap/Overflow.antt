-- ===== src/Task/Mmap/Overflow.antt =====
-- `mmap` of a range that runs over the end of the virtual addresses.
use rcore_os.Prelude.{
  ℕ, ◌+◌, ◌-◌, ◌/◌, ◌%◌, ◌^◌, ◌≤◌, ◌<◌, ◌≡◌, refl, sym, ◌∙◌, true, false, not, ◌||◌, arith, panics,
  leb, ◌==◌, add_usize,
}
use rcore_os.Prelude.Bits.{bit_and_mask}
use rcore_os.Mm.Address.{simple_range, floor, ceil, to_virt_addr, page_offset}
use rcore_os.Mm.PageTable.{Memory}
use rcore_os.Task.Mmap.{
  Process, range_of, start_of, map_fixed, map_file, bad_fixed, bad_prot, va_max, permission_of,
  do_mmap_memory, sys_mmap,
}

to_virt_addr_lem : (x : ℕ) → to_virt_addr x ≡ x % 2 ^ 39
unfolding to_virt_addr
to_virt_addr_lem x = bit_and_mask 39 x

to_virt_addr_id : (x : ℕ) → x < 2 ^ 39 → to_virt_addr x ≡ x
to_virt_addr_id x h = to_virt_addr_lem x ∙ omega arith

offset_lem : (x : ℕ) → x % 4096 ≡ page_offset x
unfolding page_offset
offset_lem x = sym (bit_and_mask 12 x)

over_the_end :
    (start len end : ℕ)
    → start % 4096 ≡ 0
    → start < 2 ^ 39
    → 2 ^ 39 ≤ start + len
    → len + 4096 ≤ 2 ^ 39
    → end ≡ add_usize start len % 2 ^ 39
    → leb (floor start) (ceil end) ≡ false
unfolding floor ceil
over_the_end start len end z a b c e =
    let is : end ≡ start + len - 2 ^ 39 = omega arith in
    let short : end + 4096 ≤ start = omega arith in
    let up : (end + 4096 - 1) / 4096 < start / 4096 = omega arith in ground arith

range_of-panics :
    (start len : ℕ)
    → start % 4096 ≡ 0
    → start < 2 ^ 39
    → 2 ^ 39 ≤ start + len
    → len + 4096 ≤ 2 ^ 39
    → range_of start len ≡ panics
unfolding range_of simple_range
range_of-panics start len z a b c =
    rw
      (over_the_end start len (to_virt_addr (add_usize start len)) z a b c
        (to_virt_addr_lem (add_usize start len)))
      refl

do_mmap_memory-panics :
    (p : Process) (m : Memory) (start len perm flags : ℕ)
    → map_fixed flags ≡ true
    → start % 4096 ≡ 0
    → start < 2 ^ 39
    → 2 ^ 39 ≤ start + len
    → len + 4096 ≤ 2 ^ 39
    → do_mmap_memory p m start len perm flags ≡ panics
unfolding do_mmap_memory start_of
do_mmap_memory-panics p m start len perm flags f z a b c =
    rw (f, to_virt_addr_id start a, range_of-panics start len z a b c) refl

-- A call of `mmap` for memory with `MAP_FIXED`, with allowed permissions and a start that is aligned to
-- pages and below 2^39, whose end is 2^39 or more, panics the kernel, unless it is longer than
-- 2^39 - 4096 bytes: the end is cut to 39 bits, and lies before the start.
pub sys_mmap-panics :
    (p : Process) (m : Memory) (start len prot flags fd offset : ℕ)
    → map_fixed flags ≡ true
    → map_file flags ≡ false
    → page_offset start ≡ 0
    → bad_prot prot ≡ false
    → start < 2 ^ 39
    → 2 ^ 39 ≤ start + len
    → len + 4096 ≤ 2 ^ 39
    → sys_mmap p m start len prot flags fd offset ≡ panics
unfolding sys_mmap bad_fixed va_max
sys_mmap-panics p m start len prot flags fd offset f g aligned ok a b c =
    let fine : (not (page_offset start == 0) || (len == 0) || leb (2 ^ 64 - 1 - len) start)
        ≡ false =
      ground arith in
    rw (f, fine, ok, g)
      (do_mmap_memory-panics p m start len (permission_of prot) flags f (offset_lem start ∙ aligned)
        a b c)
