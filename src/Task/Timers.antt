-- ===== src/Task/Timers.antt =====
-- os/src/timer.rs and `sys_sleep` of os/src/syscall/sync.rs: tasks that sleep until a time.
pub mod Pushing
pub mod Sleeping
pub mod Waking
mod Tests
use rcore_os.Prelude.{
  ℕ, ◌+◌, ◌-◌, ◌%◌, ◌^◌, List, [], ◌∷◌, if◌then◌else◌, ltb, leb, Outcome, returns, panics, ◌>>=◌,
  unwrap, add_usize,
}
use rcore_os.Task.Scheduler.{Kernel, block_current, wakeup_task}

-- `TimerCondVar`
pub record Timer : Type 0 where
  pub expire_ms : ℕ
  pub task : ℕ

-- The place of `-(expire_ms as isize)` among the values of `isize`, which orders the timers.
unfoldable pub rank : Timer → ℕ
rank t = (2 ^ 64 - t.expire_ms + 2 ^ 63) % 2 ^ 64

-- `BinaryHeap::push`. The heap is the list of what `pop` gives; of timers of one time, which it gives in
-- some order, the first comes first here.
unfoldable pub push : Timer → List Timer → List Timer
push t [] = t ∷ []
push t (u ∷ us) = if ltb (rank u) (rank t) then t ∷ u ∷ us else u ∷ push t us

unfoldable pub add_timer : List Timer → ℕ → ℕ → List Timer
add_timer timers expire_ms task = push (record { expire_ms = expire_ms; task = task }) timers

-- The time is an argument.
unfoldable pub check_timer : List Timer → ℕ → Kernel → List Timer × Kernel
check_timer [] current_ms k = ([], k)
check_timer (t ∷ ts) current_ms k =
    if leb t.expire_ms current_ms
    then check_timer ts current_ms (wakeup_task k t.task)
    else (t ∷ ts, k)

unfoldable pub sys_sleep : List Timer → ℕ → ℕ → Kernel → Outcome (List Timer × Kernel)
sys_sleep timers now ms k = do
  task ← unwrap k.current
  k' ← block_current k
  returns (add_timer timers (add_usize now ms) task, k')
