-- ===== src/Sync/Semaphore.antt =====
-- os/src/sync/semaphore.rs. The count is an `isize`, in two's complement.
pub mod Histories
mod Tests
use rcore_os.Prelude.{
  ℕ, ◌^◌, Bool, leb, List, [], ◌∷◌, ◌++◌, Option, none, some, if◌then◌else◌, Outcome, returns,
  panics, ◌>>=◌, unwrap, add_usize, sub_usize,
}
use rcore_os.Task.Scheduler.{Kernel, block_current, wakeup_task}

-- `SemaphoreInner`
pub record Semaphore : Type 0 where
  pub count : ℕ
  pub wait_queue : List ℕ

-- `n < 0`, of an `isize`.
abbrev pub is_negative : ℕ → Bool
is_negative n = leb (2 ^ 63) n

unfoldable pub new : ℕ → Semaphore
new res_count = record { count = res_count; wait_queue = [] }

wake_first : List ℕ → Semaphore → Kernel → Semaphore × Kernel
wake_first [] s k = (s, k)
wake_first (task ∷ rest) s k = (record s { wait_queue = rest }, wakeup_task k task)

pub up : Semaphore → Kernel → Semaphore × Kernel
unfolding wake_first
up s k = wake_first s.wait_queue (record s { count = add_usize s.count 1 }) k

pub down : Semaphore → Kernel → Outcome (Semaphore × Kernel)
down s k =
    let s' = record s { count = sub_usize s.count 1 } in
    if is_negative s'.count
    then (do
      task ← unwrap k.current
      k' ← block_current k
      returns (record s' { wait_queue = s.wait_queue ++ (task ∷ []) }, k'))
    else returns (s', k)
