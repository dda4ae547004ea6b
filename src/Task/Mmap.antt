-- ===== src/Task/Mmap.antt =====
-- os/src/syscall/mem.rs, os/src/task/mem.rs and the parts of os/src/task/process.rs that they use: memory
-- that a program reserves by `mmap`, that its page faults map, and that `munmap` gives up.
pub mod Handlers
pub mod Ranges
pub mod Reserving
pub mod Histories
pub mod Faulting
pub mod Unmapping
pub mod Overflow
mod Tests
use rcore_os.Prelude.{
  ℕ, zero, suc, ◌+◌, ◌-◌, ◌*◌, ◌/◌, ◌%◌, ◌^◌, Bool, true, false, not, ◌&&◌, ◌||◌, List, [], ◌∷◌,
  ◌++◌, Option, none, some, if◌then◌else◌, ltb, leb, ◌==◌, Outcome, returns, panics, ◌>>=◌, ◌>>◌,
  assert, bit_and, bit_or, add_usize, sub_usize, length,
}
use rcore_os.Mm.Address.{
  SimpleRange, simple_range, contains, overlap_with, floor, ceil, to_virt_addr, page_addr,
  page_offset,
}
use rcore_os.Mm.PageTable.{Memory, PageTable, translate, token, from_token, is_valid, unmap}
use rcore_os.Mm.MemorySet.{
  MemorySet, insert_framed_area, pages, permission_r, permission_w, permission_u,
}

pub data MapType : Type 0 where
  memory file : MapType

-- `MMapReserve`
pub record Reserve : Type 0 where
  pub range : SimpleRange
  pub perm : ℕ
  pub ty : MapType

-- `VirtAddressAllocator::new`, which is its current address.
pub address_allocator : ℕ → ℕ
address_allocator base = to_virt_addr base

-- `VirtAddressAllocator::alloc`: an address, and the next one.
unfoldable pub alloc : ℕ → ℕ → ℕ × ℕ
alloc curr_va len = (curr_va, page_addr (ceil (to_virt_addr (add_usize curr_va len))))

pub record MapRange : Type 0 where
  pub start : ℕ
  pub end : ℕ
  pub len : ℕ
  pub offset : ℕ

-- `MapRange::new`
unfoldable pub map_range : ℕ → ℕ → ℕ → MapRange
map_range start len offset = record {
  start = to_virt_addr start;
  end = to_virt_addr (add_usize start len);
  len = len;
  offset = offset;
}

unfoldable pub contains_va : MapRange → ℕ → Bool
contains_va r va = leb r.start va && ltb va r.end

unfoldable pub contains_range : MapRange → SimpleRange → Bool
contains_range r rng = leb (floor r.start) rng.l && leb rng.r (ceil r.end)

unfoldable pub equals_range : MapRange → SimpleRange → Bool
equals_range r rng = (floor r.start == rng.l) && (ceil r.end == rng.r)

unfoldable pub file_offset : MapRange → ℕ → Outcome ℕ
file_offset r vpn = do
  assert (leb r.start (page_addr vpn) && ltb (page_addr vpn) r.end)
  returns (add_usize r.offset (sub_usize (page_addr vpn) r.start))

-- `FileMapping`, of the file whose inode has the number `inode_id`; `map` has for an offset in the
-- file the page and the frame.
pub record FileMapping : Type 0 where
  pub inode_id : ℕ
  pub ranges : List MapRange
  pub frames : List ℕ
  pub map : List (ℕ × ℕ × ℕ)
  pub pt : PageTable

unfoldable pub new_empty : ℕ → ℕ → FileMapping
new_empty inode_id satp = record {
  inode_id = inode_id;
  ranges = [];
  frames = [];
  map = [];
  pt = from_token satp;
}

-- An open file, as far as mapping it looks at it; `is_file` says that it is a regular file of easy-fs.
pub record OpenFile : Type 0 where
  pub is_file : Bool
  pub readable : Bool
  pub writable : Bool
  pub inode_id : ℕ
  pub size : ℕ

-- The fields of `ProcessControlBlockInner` that mapping works on.
pub record Process : Type 0 where
  pub memory_set : MemorySet
  pub fd_table : List (Option OpenFile)
  pub mmap_mapped : List Reserve
  pub mmap_va_allocator : ℕ
  pub file_mappings : List FileMapping

-- The first loop of `vpn_range_free`: no reserve overlaps.
pub apart_from : SimpleRange → List Reserve → Bool
apart_from r [] = true
apart_from r (v ∷ vs) = if overlap_with r v.range then false else apart_from r vs

-- An entry that the walk of the table ends at, and that is valid.
unfoldable pub valid_entry : Option ℕ → Bool
valid_entry none = false
valid_entry (some pte) = is_valid pte

-- Its second loop: none of `n` pages is mapped.
pub unmapped_from : ℕ → PageTable → Memory → ℕ → Bool
unmapped_from zero t m vpn = true
unmapped_from (suc n) t m vpn =
    if valid_entry (translate t m vpn) then false else unmapped_from n t m (vpn + 1)

pub vpn_range_free : Process → Memory → SimpleRange → Bool
vpn_range_free p m r =
    if apart_from r p.mmap_mapped
    then unmapped_from (pages r) p.memory_set.page_table m r.l
    else false

-- `MMapFlags::contains`; `MAP_FILE` is the first bit and `MAP_FIXED` the second.
abbrev pub map_file : ℕ → Bool
map_file flags = flags % 2 == 1

abbrev pub map_fixed : ℕ → Bool
map_fixed flags = flags / 2 % 2 == 1

-- Where a mapping starts: the address of the program, or the next one of the kernel.
unfoldable pub start_of : Process → Bool → ℕ → ℕ → ℕ × Process
start_of p fixed start len = if fixed then (to_virt_addr start, p) else (
  (alloc p.mmap_va_allocator len).0,
  record p { mmap_va_allocator = (alloc p.mmap_va_allocator len).1 },
)

-- `VPNRange::new(start_va.floor(), VirtAddr::from(start_va.0 + len).ceil())`
unfoldable pub range_of : ℕ → ℕ → Outcome SimpleRange
range_of start_va len = simple_range (floor start_va) (ceil (to_virt_addr (add_usize start_va len)))

unfoldable pub reserve : Process → SimpleRange → ℕ → MapType → Process
reserve p r perm ty = record p {
  mmap_mapped = p.mmap_mapped ++ (record { range = r; perm = perm; ty = ty } ∷ []);
}

-- The result of `do_mmap_memory`, once it has a range; `none` is -1.
unfoldable pub reserve_memory : Process → Memory → ℕ → SimpleRange → Option ℕ × Process
reserve_memory p m perm r =
    if vpn_range_free p m r then (some (page_addr r.l), reserve p r perm memory) else (none, p)

pub do_mmap_memory : Process → Memory → ℕ → ℕ → ℕ → ℕ → Outcome (Option ℕ × Process)
do_mmap_memory p m start len perm flags = do
  r ← range_of (start_of p (map_fixed flags) start len).0 len
  returns (reserve_memory (start_of p (map_fixed flags) start len).1 m perm r)

-- `inner.fd_table.get(fd)`, of an open file.
abbrev pub get_file : List (Option OpenFile) → ℕ → Option OpenFile
get_file [] fd = none
get_file (f ∷ fs) zero = f
get_file (f ∷ fs) (suc fd) = get_file fs fd

-- What `do_mmap_file` asks of the file.
unfoldable pub may_map : OpenFile → ℕ → ℕ → ℕ → Bool
may_map f len perm offset =
    f.is_file
    && not (
        ((bit_and perm permission_r == permission_r) && not f.readable)
        || ((bit_and perm permission_w == permission_w) && not f.writable))
    && leb len f.size
    && leb offset (f.size - len)

-- `find_file_mapping`, and the range pushed to what it finds, or to a new mapping.
pub add_file_range : List FileMapping → ℕ → ℕ → MapRange → List FileMapping
add_file_range [] inode_id satp r = record (new_empty inode_id satp) { ranges = r ∷ [] } ∷ []
add_file_range (f ∷ fs) inode_id satp r =
    if f.inode_id == inode_id
    then record f { ranges = f.ranges ++ (r ∷ []) } ∷ fs
    else f ∷ add_file_range fs inode_id satp r

-- The result of `do_mmap_file`, once it has a range.
unfoldable pub reserve_file :
    Process → Memory → ℕ → ℕ → ℕ → ℕ → ℕ → SimpleRange → Option ℕ × Process
reserve_file p m inode_id start_va len perm offset r =
    if vpn_range_free p m r
    then (
      some (page_addr r.l),
      record (reserve p r perm file) {
        file_mappings =
            add_file_range p.file_mappings inode_id (token p.memory_set.page_table)
              (map_range start_va len offset);
      },
    )
    else (none, p)

-- `do_mmap_file`, of the open file under `fd`, if there is one.
pub mmap_open :
    Option OpenFile → Process → Memory → ℕ → ℕ → ℕ → ℕ → ℕ → Outcome (Option ℕ × Process)
mmap_open none p m start len perm flags offset = returns (none, p)
mmap_open (some f) p m start len perm flags offset =
    if may_map f len perm offset
    then (range_of (start_of p (map_fixed flags) start len).0 len >>= λ r. returns (
        reserve_file (start_of p (map_fixed flags) start len).1 m f.inode_id
          (start_of p (map_fixed flags) start len).0 len perm offset r))
    else returns (none, p)

pub do_mmap_file : Process → Memory → ℕ → ℕ → ℕ → ℕ → ℕ → ℕ → Outcome (Option ℕ × Process)
do_mmap_file p m start len perm flags fd offset =
    if leb fd 2
    then returns (none, p)
    else mmap_open (get_file p.fd_table fd) p m start len perm flags offset

-- The checks of `sys_mmap`; `VA_MAX` is `usize::MAX`.
unfoldable pub va_max : ℕ
va_max = 2 ^ 64 - 1

unfoldable pub bad_fixed : ℕ → ℕ → Bool
unfolding va_max
bad_fixed start len = not (page_offset start == 0) || (len == 0) || leb (va_max - len) start

unfoldable pub bad_prot : ℕ → Bool
bad_prot prot = not (prot / 8 == 0) || (prot % 8 == 0)

-- `MapPermission::from_bits_truncate((prot << 1) as u8) | MapPermission::U`
unfoldable pub permission_of : ℕ → ℕ
permission_of prot = bit_or (bit_and (prot * 2 % 256) 30) permission_u

pub sys_mmap : Process → Memory → ℕ → ℕ → ℕ → ℕ → ℕ → ℕ → Outcome (Option ℕ × Process)
sys_mmap p m start len prot flags fd offset =
    if map_fixed flags && bad_fixed start len
    then returns (none, p)
    else if bad_prot prot
    then returns (none, p)
    else if map_file flags
    then do_mmap_file p m start len (permission_of prot) flags fd offset
    else do_mmap_memory p m start len (permission_of prot) flags
