-- ===== src/Task/Id/Places.antt =====
-- Where the stacks and trap contexts of different numbers lie.
use rcore_os.Prelude.{ℕ, ◌+◌, ◌-◌, ◌*◌, ◌^◌, ◌≤◌, ◌<◌, ◌≡◌, arith}
use rcore_os.Prelude.Bits.{bit_and_mask}
use rcore_os.Mm.Address.{page_size, floor, to_virt_addr}
use rcore_os.Task.Id.{
  kernel_stack_position, trap_cx_bottom_from_tid, ustack_bottom_from_tid, ustack_top, trampoline,
  kernel_stack_size, user_stack_size,
}

-- Of two kernel stacks that fit the top 2^38 bytes, the one of the larger number lies wholly below
-- the other, with a page or more between them; each has its size and stays inside the top 2^38
-- bytes below the trampoline. So do the virtual addresses that Sv39 cuts these to: the pages of the
-- two stacks are apart, with a page between them.
pub kernel_stack_position_apart :
    (i j : ℕ)
    → i < j
    → (j + 1) * 12288 ≤ 2 ^ 38 - page_size
    → ((kernel_stack_position i).0 + kernel_stack_size ≡ (kernel_stack_position i).1)
      × ((kernel_stack_position i).1 ≤ trampoline)
      × (2 ^ 64 - 2 ^ 38 ≤ (kernel_stack_position j).0)
      × ((kernel_stack_position j).1 + page_size ≤ (kernel_stack_position i).0)
      × (floor (to_virt_addr (kernel_stack_position j).1) + 1
          ≤ floor (to_virt_addr (kernel_stack_position i).0))
unfolding kernel_stack_position floor to_virt_addr
kernel_stack_position_apart i j lt h = (
  omega arith,
  omega arith,
  omega arith,
  omega arith,
  omega (
    arith,
    bit_and_mask 39 (kernel_stack_position j).1,
    bit_and_mask 39 (kernel_stack_position i).0,
  ),
)

-- The trap contexts of two threads of a process do not meet, nor do their user stacks, between
-- which a page is left; every user stack, for a base and a number at which it ends below 2^38, lies
-- below every trap context.
pub thread_areas_apart :
    (base i j : ℕ)
    → i < j
    → base + (j + 1) * 12288 ≤ 2 ^ 38
    → (trap_cx_bottom_from_tid j + page_size ≤ trap_cx_bottom_from_tid i)
      × (trap_cx_bottom_from_tid i + page_size ≤ trampoline)
      × (ustack_top base i + page_size ≤ ustack_bottom_from_tid base j)
      × (ustack_bottom_from_tid base j + user_stack_size ≡ ustack_top base j)
      × (ustack_top base j ≤ trap_cx_bottom_from_tid j)
unfolding trap_cx_bottom_from_tid ustack_top ustack_bottom_from_tid
thread_areas_apart base i j lt h = (omega arith, omega arith, omega arith, omega arith, omega arith)
