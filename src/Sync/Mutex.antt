-- ===== src/Sync/Mutex.antt =====
-- os/src/sync/mutex.rs: the mutex on which tasks block.
pub mod Histories
mod Tests
use rcore_os.Prelude.{
  ℕ, Bool, true, false, List, [], ◌∷◌, ◌++◌, Option, none, some, if◌then◌else◌, Outcome, returns,
  panics, ◌>>=◌, ◌>>◌, assert, unwrap,
}
use rcore_os.Task.Scheduler.{Kernel, block_current, suspend_current, wakeup_task}

-- `MutexBlockingInner`
pub record MutexBlocking : Type 0 where
  pub locked : Bool
  pub wait_queue : List ℕ

unfoldable pub new : MutexBlocking
new = record { locked = false; wait_queue = [] }

unfoldable pub lock : MutexBlocking → Kernel → Outcome (MutexBlocking × Kernel)
lock m k =
    if m.locked
    then (do
      task ← unwrap k.current
      k' ← block_current k
      returns (record m { wait_queue = m.wait_queue ++ (task ∷ []) }, k'))
    else returns (record m { locked = true }, k)

unfoldable pub hand_over : List ℕ → MutexBlocking → Kernel → MutexBlocking × Kernel
hand_over [] m k = (record m { locked = false }, k)
hand_over (task ∷ rest) m k = (record m { wait_queue = rest }, wakeup_task k task)

unfoldable pub unlock : MutexBlocking → Kernel → Outcome (MutexBlocking × Kernel)
unfolding hand_over
unlock m k = do assert m.locked; returns (hand_over m.wait_queue m k)
