-- ===== src/Sync/Spin.antt =====
-- os/src/sync/mutex.rs: the mutex that tasks wait for by yielding, and histories of tasks that share
-- it. A round of `lock` runs from where the task gets the processor to where it returns or yields.
pub mod Turns
mod Tests
use rcore_os.Prelude.{
  ℕ, Bool, true, false, List, [], ◌∷◌, Option, none, some, if◌then◌else◌, ◌==◌, Outcome, returns,
  panics, ◌>>=◌, ◌>>◌, mem,
}
use rcore_os.Task.Scheduler.{Kernel, suspend_current, run_next}

pub record MutexSpin : Type 0 where
  pub locked : Bool

pub new_spin : MutexSpin
new_spin = record { locked = false }

-- A round of `lock`: whether it returns, or has yielded and is to go on with another round.
pub lock_round : MutexSpin → Kernel → Outcome (Bool × MutexSpin × Kernel)
lock_round m k =
    if m.locked
    then (suspend_current k >>= λ k'. returns (false, m, k'))
    else returns (true, record { locked = true }, k)

pub unlock_spin : MutexSpin → MutexSpin
unlock_spin m = record { locked = false }

-- The kernel, a mutex, and the tasks whose `lock` has returned and that have not called `unlock`.
pub record Shared : Type 0 where
  pub kernel : Kernel
  pub mutex : MutexSpin
  pub inside : List ℕ

pub data Turn : Type 0 where
  tries releases gives_way idles : Turn

abbrev pub without : ℕ → List ℕ → List ℕ
without c [] = []
without c (x ∷ xs) = if x == c then without c xs else x ∷ without c xs

abbrev pub let_in : Bool → ℕ → List ℕ → List ℕ
let_in true c xs = c ∷ xs
let_in false c xs = xs

pub try_lock : ℕ → Shared → Outcome Shared
try_lock c s = do
  r ← lock_round s.mutex s.kernel
  returns (record { kernel = r.2; mutex = r.1; inside = let_in r.0 c s.inside })

-- What the current task `c` does. Tasks keep to the rule to try a round of `lock` only from outside
-- and to unlock only from inside: a turn that would break it is skipped.
pub turn_of : Turn → ℕ → Shared → Outcome Shared
turn_of tries c s = if mem c s.inside then returns s else try_lock c s
turn_of releases c s =
    if mem c s.inside
    then returns (record s { mutex = unlock_spin s.mutex; inside = without c s.inside })
    else returns s
turn_of gives_way c s = suspend_current s.kernel >>= λ k. returns (record s { kernel = k })
turn_of idles c s = returns s

-- The idle loop runs when there is no current task, and a task runs when it is the current one.
pub turn_as : Option ℕ → Turn → Shared → Outcome Shared
turn_as none idles s = returns (record s { kernel = run_next s.kernel })
turn_as none tries s = returns s
turn_as none releases s = returns s
turn_as none gives_way s = returns s
turn_as (some c) op s = turn_of op c s

pub take_turns : Shared → List Turn → Outcome Shared
take_turns s [] = returns s
take_turns s (op ∷ ops) = turn_as s.kernel.current op s >>= λ s'. take_turns s' ops
