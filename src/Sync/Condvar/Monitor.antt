-- ===== src/Sync/Condvar/Monitor.antt =====
-- Histories of tasks that share a blocking mutex and a condition variable.
pub mod Queues
pub mod Locking
pub mod Waiting
pub mod Safety
use rcore_os.Prelude.{
  ℕ, ◌≡◌, Bool, true, false, List, [], ◌∷◌, ◌++◌, Option, none, some, if◌then◌else◌, Outcome,
  returns, panics, ◌>>=◌, mem,
}
use rcore_os.Task.Scheduler.{Kernel, TaskStatus, ready, suspend_current, run_next}
use rcore_os.Task.Scheduler.Queues.{Placed}
use rcore_os.Sync.Mutex as Mutex
use rcore_os.Sync.Mutex.{MutexBlocking, lock, unlock}
use rcore_os.Sync.Mutex.Histories.{entered, leave, woken, Holds}
use rcore_os.Sync.Condvar.{Condvar, new, signal, wait}

-- The tasks that have the mutex, and those that `signal` has woken and that have not locked the mutex
-- since, which is the end of their `wait`.
pub record System : Type 0 where
  pub kernel : Kernel
  pub mutex : MutexBlocking
  pub condvar : Condvar
  pub inside : List ℕ
  pub returning : List ℕ

pub data Op : Type 0 where
  locks unlocks waits signals yields runs : Op

pub do_lock : ℕ → System → Outcome System
do_lock c s = do
  r ← lock s.mutex s.kernel
  returns (record s {
    kernel = r.1;
    mutex = r.0;
    inside = entered s.mutex.locked c s.inside;
    returning = leave c s.returning;
  })

pub do_unlock : ℕ → System → Outcome System
do_unlock c s = do
  r ← unlock s.mutex s.kernel
  returns
      (record s { kernel = r.1; mutex = r.0; inside = woken s.mutex.wait_queue (leave c s.inside) })

pub do_wait : ℕ → System → Outcome System
do_wait c s = do
  r ← wait s.condvar s.mutex s.kernel
  returns (record s {
    kernel = r.2;
    mutex = r.1;
    condvar = r.0;
    inside = woken s.mutex.wait_queue (leave c s.inside);
  })

-- The tasks that a signal wakes.
abbrev signalled : List ℕ → List ℕ → List ℕ
signalled [] rs = rs
signalled (t ∷ ws) rs = t ∷ rs

pub do_signal : System → System
do_signal s = record s {
  kernel = (signal s.condvar s.kernel).1;
  condvar = (signal s.condvar s.kernel).0;
  returning = signalled s.condvar.wait_queue s.returning;
}

-- What the current task `c` does, which returns from a wait or not, and is inside or not. Tasks keep
-- to the rule to lock only from outside, and to unlock and wait only from inside: a turn that would
-- break it is skipped. A task that returns from a wait locks first.
by_task : Op → Bool → Bool → ℕ → System → Outcome System
by_task yields back inn c s = suspend_current s.kernel >>= λ k. returns (record s { kernel = k })
by_task runs back inn c s = returns s
by_task locks true inn c s = do_lock c s
by_task locks false true c s = returns s
by_task locks false false c s = do_lock c s
by_task unlocks true inn c s = do_lock c s
by_task unlocks false true c s = do_unlock c s
by_task unlocks false false c s = returns s
by_task waits true inn c s = do_lock c s
by_task waits false true c s = do_wait c s
by_task waits false false c s = returns s
by_task signals true inn c s = do_lock c s
by_task signals false inn c s = returns (do_signal s)

-- The idle loop runs when there is no current task, and a task runs when it is the current one.
step_as : Option ℕ → Op → System → Outcome System
step_as none runs s = returns (record s { kernel = run_next s.kernel })
step_as none locks s = returns s
step_as none unlocks s = returns s
step_as none waits s = returns s
step_as none signals s = returns s
step_as none yields s = returns s
step_as (some c) op s = by_task op (mem c s.returning) (mem c s.inside) c s

pub run : System → List Op → Outcome System
unfolding step_as by_task do_lock do_unlock do_wait do_signal
run s [] = returns s
run s (op ∷ ops) = step_as s.kernel.current op s >>= λ s'. run s' ops

-- What holds all the time.
pub record IsMonitor (s : System) : Type 0 where
  pub placed : Placed s.kernel (s.mutex.wait_queue ++ s.condvar.wait_queue)
  pub holds : Holds s.inside s.mutex
  pub alone :
      (t : ℕ)
      → mem t s.inside ≡ true
      → (mem t s.condvar.wait_queue ≡ false) × (mem t s.returning ≡ false)
  pub apart :
      (t : ℕ)
      → mem t (s.mutex.wait_queue ++ s.condvar.wait_queue) ≡ true
      → mem t s.returning ≡ false

-- A kernel whose tasks are all ready, with a new mutex and a new condition variable.
pub start : List ℕ → System
unfolding Mutex.new new
start tasks = record {
  kernel = record { ready_queue = tasks; current = none; task_status = λ t. ready };
  mutex = Mutex.new;
  condvar = new;
  inside = [];
  returning = [];
}
