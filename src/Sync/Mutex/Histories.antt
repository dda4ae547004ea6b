-- ===== src/Sync/Mutex/Histories.antt =====
-- Histories of tasks that share a blocking mutex.
pub mod Exclusion
use rcore_os.Prelude.{
  ℕ, ◌≡◌, refl, ap, sym, subst, ◌∙◌, Bool, true, false, not, ◌==◌, List, [], ◌∷◌, ◌++◌, Option,
  none, some, if◌then◌else◌, Outcome, returns, panics, ◌>>=◌, ◌>>◌, assert, unwrap, mem, mem-append,
  Distinct, arith, inl, inr, Bool-cases,
}
use rcore_os.Task.Scheduler.{
  Kernel, TaskStatus, ready, running, blocked, suspend_current, block_current, run_next,
  wakeup_task,
}
use rcore_os.Task.Scheduler.Queues.{
  Placed, wakeup_task-Placed, block_current-Placed, suspend_current-Placed, run_next-Placed,
}
use rcore_os.Sync.Mutex.{MutexBlocking, new, lock, unlock, hand_over}

-- The kernel, a mutex, and the tasks that `lock` has let through (a task that it blocked is let
-- through when it is woken) and that have not called `unlock` since.
pub record System : Type 0 where
  pub kernel : Kernel
  pub mutex : MutexBlocking
  pub inside : List ℕ

pub data Op : Type 0 where
  locks unlocks yields runs : Op

-- After a `lock` by `c` that found the mutex `locked` or not.
abbrev pub entered : Bool → ℕ → List ℕ → List ℕ
entered true c xs = xs
entered false c xs = c ∷ xs

abbrev pub leave : ℕ → List ℕ → List ℕ
leave c [] = []
leave c (x ∷ xs) = if x == c then leave c xs else x ∷ leave c xs

-- After an `unlock` that found the wait queue `ws`.
abbrev pub woken : List ℕ → List ℕ → List ℕ
woken [] xs = xs
woken (t ∷ ws) xs = t ∷ xs

do_lock : ℕ → System → Outcome System
do_lock c s = do
  r ← lock s.mutex s.kernel
  returns (record { kernel = r.1; mutex = r.0; inside = entered s.mutex.locked c s.inside })

do_unlock : ℕ → System → Outcome System
do_unlock c s = do
  r ← unlock s.mutex s.kernel
  returns
      (record { kernel = r.1; mutex = r.0; inside = woken s.mutex.wait_queue (leave c s.inside) })

-- What the current task `c` does. Tasks keep to the rule to lock only from outside and to unlock only
-- from inside: a turn that would break it is skipped.
by_task : Op → ℕ → System → Outcome System
by_task locks c s = if mem c s.inside then returns s else do_lock c s
by_task unlocks c s = if mem c s.inside then do_unlock c s else returns s
by_task yields c s = suspend_current s.kernel >>= λ k. returns (record s { kernel = k })
by_task runs c s = returns s

-- The idle loop runs when there is no current task, and a task runs when it is the current one.
step_as : Option ℕ → Op → System → Outcome System
step_as none runs s = returns (record s { kernel = run_next s.kernel })
step_as none locks s = returns s
step_as none unlocks s = returns s
step_as none yields s = returns s
step_as (some c) op s = by_task op c s

pub step : System → Op → Outcome System
unfolding step_as by_task do_lock do_unlock
step s op = step_as s.kernel.current op s

pub run : System → List Op → Outcome System
run s [] = returns s
run s (op ∷ ops) = step s op >>= λ s'. run s' ops

-- No task is inside and the mutex is free, with nobody waiting; or one is, it is locked, and that
-- task does not wait.
abbrev pub Holds : List ℕ → MutexBlocking → Type 0
Holds [] m = (m.locked ≡ false) × (m.wait_queue ≡ [])
Holds (t ∷ []) m = (m.locked ≡ true) × (mem t m.wait_queue ≡ false)
Holds (t ∷ u ∷ ts) m = ⊥

pub record Exclusive (s : System) : Type 0 where
  pub placed : Placed s.kernel s.mutex.wait_queue
  pub holds : Holds s.inside s.mutex

-- A kernel whose tasks are all ready, with a new mutex.
pub start : List ℕ → System
unfolding new
start tasks = record {
  kernel = record { ready_queue = tasks; current = none; task_status = λ t. ready };
  mutex = new;
  inside = [];
}
