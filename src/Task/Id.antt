-- ===== src/Task/Id.antt =====
-- os/src/task/id.rs: the allocator of process, thread and kernel stack numbers, and where the stacks
-- and the trap contexts of these numbers lie.
pub mod InUse
pub mod Places
mod Tests
use rcore_os.Prelude.{
  ℕ, zero, suc, ◌+◌, ◌-◌, ◌*◌, ◌^◌, Bool, true, false, not, ◌&&◌, List, [], ◌∷◌, if◌then◌else◌, ltb,
  mem, add_usize, sub_usize, mul_usize, usize_mod, Outcome, returns, panics, ◌>>=◌, ◌>>◌, assert,
}
use rcore_os.Mm.Address.{page_size}

-- The head of `recycled` is the back of the vector.
pub record RecycleAllocator : Type 0 where
  pub current : ℕ
  pub recycled : List ℕ

pub new : RecycleAllocator
new = record { current = 0; recycled = [] }

alloc_from : List ℕ → RecycleAllocator → ℕ × RecycleAllocator
alloc_from [] a = (a.current, record a { current = add_usize a.current 1 })
alloc_from (v ∷ rest) a = (v, record a { recycled = rest })

pub alloc : RecycleAllocator → ℕ × RecycleAllocator
unfolding alloc_from
alloc a = alloc_from a.recycled a

pub dealloc : RecycleAllocator → ℕ → Outcome RecycleAllocator
dealloc a id = do
  assert (ltb id a.current)
  assert (not (mem id a.recycled))
  returns (record a { recycled = id ∷ a.recycled })

-- os/src/config.rs
abbrev pub user_stack_size : ℕ
user_stack_size = 4096 * 2

abbrev pub kernel_stack_size : ℕ
kernel_stack_size = 4096 * 2

-- `usize::MAX - PAGE_SIZE + 1`
abbrev pub trampoline : ℕ
trampoline = 2 ^ 64 - 1 - page_size + 1

abbrev pub trap_context : ℕ
trap_context = trampoline - page_size

-- The bottom and the top of a kernel stack.
pub kernel_stack_position : ℕ → ℕ × ℕ
kernel_stack_position kstack_id =
    let top = sub_usize trampoline (mul_usize kstack_id (kernel_stack_size + page_size)) in
    (sub_usize top kernel_stack_size, top)

pub trap_cx_bottom_from_tid : ℕ → ℕ
trap_cx_bottom_from_tid tid = sub_usize trap_context (mul_usize tid page_size)

pub ustack_bottom_from_tid : ℕ → ℕ → ℕ
ustack_bottom_from_tid ustack_base tid =
    add_usize ustack_base (mul_usize tid (page_size + user_stack_size))

-- `TaskUserRes::ustack_top`
pub ustack_top : ℕ → ℕ → ℕ
unfolding ustack_bottom_from_tid
ustack_top ustack_base tid = add_usize (ustack_bottom_from_tid ustack_base tid) user_stack_size
