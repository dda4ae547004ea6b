-- ===== src/Sync/Semaphore/Histories.antt =====
-- Histories of tasks that share a semaphore.
pub mod Counting
use rcore_os.Prelude.{
  ℕ, zero, suc, ◌+◌, ◌-◌, ◌%◌, ◌^◌, ◌≤◌, ◌<◌, ◌≡◌, ◌⊎◌, Bool, true, false, List, [], ◌∷◌, Option,
  none, some, Outcome, returns, panics, ◌>>=◌, length, sub_usize,
}
use rcore_os.Task.Scheduler.{Kernel, TaskStatus, ready, suspend_current, run_next}
use rcore_os.Task.Scheduler.Queues.{Placed}
use rcore_os.Sync.Semaphore.{Semaphore, new, up, down, is_negative}

-- The kernel, a semaphore, how often `up` was called, and how many calls of `down` it has let
-- through (a call that blocked its task is let through when the task is woken).
pub record System : Type 0 where
  pub kernel : Kernel
  pub semaphore : Semaphore
  pub ups : ℕ
  pub passed : ℕ

pub data Op : Type 0 where
  raises lowers yields runs : Op

abbrev if_woken : List ℕ → ℕ → ℕ
if_woken [] n = n
if_woken (t ∷ ts) n = suc n

abbrev if_free : Bool → ℕ → ℕ
if_free true n = n
if_free false n = suc n

do_up : System → System
do_up s =
    let r = up s.semaphore s.kernel in
    record {
      kernel = r.1;
      semaphore = r.0;
      ups = suc s.ups;
      passed = if_woken s.semaphore.wait_queue s.passed;
    }

do_down : System → Outcome System
do_down s = do
  r ← down s.semaphore s.kernel
  returns (record s {
    kernel = r.1;
    semaphore = r.0;
    passed = if_free (is_negative (sub_usize s.semaphore.count 1)) s.passed;
  })

by_task : Op → System → Outcome System
by_task raises s = returns (do_up s)
by_task lowers s = do_down s
by_task yields s = suspend_current s.kernel >>= λ k. returns (record s { kernel = k })
by_task runs s = returns s

-- The idle loop runs when there is no current task, and a task runs when it is the current one.
step_as : Option ℕ → Op → System → Outcome System
step_as none runs s = returns (record s { kernel = run_next s.kernel })
step_as none raises s = returns s
step_as none lowers s = returns s
step_as none yields s = returns s
step_as (some c) op s = by_task op s

pub step : System → Op → Outcome System
unfolding step_as by_task do_up do_down
step s op = step_as s.kernel.current op s

pub run : System → List Op → Outcome System
run s [] = returns s
run s (op ∷ ops) = step s op >>= λ s'. run s' ops

-- Of `n` resources and those raised since, none has been given twice; nobody waits while one is left;
-- and the count is what is left, or minus the number of those who wait.
pub record Counted (n : ℕ) (s : System) : Type 0 where
  pub placed : Placed s.kernel s.semaphore.wait_queue
  pub fair : s.passed ≤ n + s.ups
  pub prompt : (s.semaphore.wait_queue ≡ []) ⊎ (s.passed ≡ n + s.ups)
  pub tally :
      s.semaphore.count ≡ (2 ^ 64 + (n + s.ups - s.passed) - length s.semaphore.wait_queue) % 2 ^ 64

-- A kernel whose tasks are all ready, with a new semaphore.
pub start : ℕ → List ℕ → System
unfolding new
start n tasks = record {
  kernel = record { ready_queue = tasks; current = none; task_status = λ t. ready };
  semaphore = new n;
  ups = 0;
  passed = 0;
}
