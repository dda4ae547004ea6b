-- ===== src/Sync/Condvar.antt =====
-- os/src/sync/condvar.rs: the condition variable, on which tasks wait without the mutex.
pub mod Monitor
mod Tests
use rcore_os.Prelude.{
  ℕ, List, [], ◌∷◌, ◌++◌, Option, none, some, Outcome, returns, panics, ◌>>=◌, unwrap,
}
use rcore_os.Task.Scheduler.{Kernel, block_current, wakeup_task}
use rcore_os.Sync.Mutex.{MutexBlocking, unlock}

-- `CondVarInner`
pub record Condvar : Type 0 where
  pub wait_queue : List ℕ

pub new : Condvar
new = record { wait_queue = [] }

unfoldable pub wake_first : List ℕ → Condvar → Kernel → Condvar × Kernel
wake_first [] c k = (c, k)
wake_first (task ∷ rest) c k = (record { wait_queue = rest }, wakeup_task k task)

unfoldable pub signal : Condvar → Kernel → Condvar × Kernel
signal c k = wake_first c.wait_queue c k

-- `wait_no_sched`, without the place of the context that it returns.
unfoldable pub wait_no_sched : Condvar → Kernel → Outcome (Condvar × Kernel)
wait_no_sched c k = do
  task ← unwrap k.current
  k' ← block_current k
  returns (record { wait_queue = c.wait_queue ++ (task ∷ []) }, k')

-- `wait`, up to where the task is off the processor; once it runs again it locks the mutex.
unfoldable pub wait : Condvar → MutexBlocking → Kernel → Outcome (Condvar × MutexBlocking × Kernel)
wait c m k = do u ← unlock m k; w ← wait_no_sched c u.1; returns (w.0, u.0, w.1)
