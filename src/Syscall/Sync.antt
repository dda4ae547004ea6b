-- ===== src/Syscall/Sync.antt =====
-- os/src/syscall/sync.rs: the tables of mutexes, semaphores and condition variables of a process, and the
-- calls on what is in them.
pub mod Slots
pub mod Calls
mod Tests
use rcore_os.Prelude.{
  ℕ, zero, suc, Bool, true, false, List, [], ◌∷◌, Option, none, some, if◌then◌else◌, Outcome,
  returns, panics, ◌>>=◌,
}
use rcore_os.Task.Scheduler.{Kernel}
use rcore_os.Sync.Mutex as Mutex
use rcore_os.Sync.Mutex.{MutexBlocking}
use rcore_os.Sync.Spin.{MutexSpin, new_spin, lock_round, unlock_spin}
use rcore_os.Sync.Semaphore as Semaphore
use rcore_os.Sync.Semaphore.{Semaphore}
use rcore_os.Sync.Condvar as Condvar
use rcore_os.Sync.Condvar.{Condvar}

-- `Arc<dyn Mutex>`
pub data AnyMutex : Type 0 where
  blocking : MutexBlocking → AnyMutex
  spinning : MutexSpin → AnyMutex

-- The tables of `ProcessControlBlockInner`. What a table shares with a task that is in a call is the
-- same object; a call takes it out and puts it back in one step.
pub record Tables : Type 0 where
  pub mutex_list : List (Option AnyMutex)
  pub semaphore_list : List (Option Semaphore)
  pub condvar_list : List (Option Condvar)

-- `list.get(id)`, of an object.
unfoldable pub get_slot {ℓ} : {A : Type ℓ} → List (Option A) → ℕ → Option A
get_slot [] id = none
get_slot (v ∷ vs) zero = v
get_slot (v ∷ vs) (suc id) = get_slot vs id

-- The object under `id` after a call on it.
unfoldable pub set_slot {ℓ} : {A : Type ℓ} → List (Option A) → ℕ → A → List (Option A)
set_slot [] id x = []
set_slot (v ∷ vs) zero x = some x ∷ vs
set_slot (v ∷ vs) (suc id) x = v ∷ set_slot vs id x

-- An object put into the first empty slot, or behind the last one.
unfoldable pub add_slot {ℓ} : {A : Type ℓ} → List (Option A) → A → ℕ × List (Option A)
add_slot [] x = (0, some x ∷ [])
add_slot (none ∷ vs) x = (0, some x ∷ vs)
add_slot (some v ∷ vs) x = let r = add_slot vs x in (suc r.0, some v ∷ r.1)

-- `ProcessControlBlockInner::alloc_fd`
unfoldable pub alloc_fd {ℓ} : {A : Type ℓ} → List (Option A) → ℕ × List (Option A)
alloc_fd [] = (0, none ∷ [])
alloc_fd (none ∷ vs) = (0, none ∷ vs)
alloc_fd (some v ∷ vs) = let r = alloc_fd vs in (suc r.0, some v ∷ r.1)

pub new_mutex : Bool → AnyMutex
new_mutex true = blocking Mutex.new
new_mutex false = spinning new_spin

unfoldable pub sys_mutex_create : Bool → Tables → ℕ × Tables
sys_mutex_create is_blocking s =
    let r = add_slot s.mutex_list (new_mutex is_blocking) in (r.0, record s { mutex_list = r.1 })

unfoldable pub sys_semaphore_create : ℕ → Tables → ℕ × Tables
sys_semaphore_create res_count s =
    let r = add_slot s.semaphore_list (Semaphore.new res_count) in
    (r.0, record s { semaphore_list = r.1 })

unfoldable pub sys_condvar_create : Tables → ℕ × Tables
sys_condvar_create s =
    let r = add_slot s.condvar_list Condvar.new in (r.0, record s { condvar_list = r.1 })

-- What a call answers: -1, 0, or that it goes on, with another round of a spinning lock or with the lock
-- at the end of a wait.
pub data Answer : Type 0 where
  missing done again : Answer

abbrev pub Result : Type 0
Result = Answer × Tables × Kernel

unfoldable pub answer_of : Bool → Answer
answer_of true = done
answer_of false = again

unfoldable pub lock_any : ℕ → AnyMutex → Tables → Kernel → Outcome Result
lock_any id (blocking m) s k = Mutex.lock m k >>= λ r.
    returns (done, record s { mutex_list = set_slot s.mutex_list id (blocking r.0) }, r.1)
lock_any id (spinning m) s k = lock_round m k >>= λ r.
    returns (answer_of r.0, record s { mutex_list = set_slot s.mutex_list id (spinning r.1) }, r.2)

unfoldable pub unlock_any : ℕ → AnyMutex → Tables → Kernel → Outcome Result
unlock_any id (blocking m) s k = Mutex.unlock m k >>= λ r.
    returns (done, record s { mutex_list = set_slot s.mutex_list id (blocking r.0) }, r.1)
unlock_any id (spinning m) s k =
    returns (done, record s { mutex_list = set_slot s.mutex_list id (spinning (unlock_spin m)) }, k)

-- A call on what is under an id, which is -1 if nothing is.
unfoldable pub on_slot {ℓ} :
    {A : Type ℓ} → Option A → Tables → Kernel → (A → Outcome Result) → Outcome Result
on_slot none s k call = returns (missing, s, k)
on_slot (some x) s k call = call x

unfoldable pub sys_mutex_lock : ℕ → Tables → Kernel → Outcome Result
sys_mutex_lock id s k = on_slot (get_slot s.mutex_list id) s k (λ m. lock_any id m s k)

unfoldable pub sys_mutex_unlock : ℕ → Tables → Kernel → Outcome Result
sys_mutex_unlock id s k = on_slot (get_slot s.mutex_list id) s k (λ m. unlock_any id m s k)

unfoldable pub up_at : ℕ → Semaphore → Tables → Kernel → Outcome Result
up_at id x s k = returns (
  done,
  record s { semaphore_list = set_slot s.semaphore_list id (Semaphore.up x k).0 },
  (Semaphore.up x k).1,
)

unfoldable pub down_at : ℕ → Semaphore → Tables → Kernel → Outcome Result
down_at id x s k = Semaphore.down x k >>= λ r.
    returns (done, record s { semaphore_list = set_slot s.semaphore_list id r.0 }, r.1)

unfoldable pub sys_semaphore_up : ℕ → Tables → Kernel → Outcome Result
sys_semaphore_up id s k = on_slot (get_slot s.semaphore_list id) s k (λ x. up_at id x s k)

unfoldable pub sys_semaphore_down : ℕ → Tables → Kernel → Outcome Result
sys_semaphore_down id s k = on_slot (get_slot s.semaphore_list id) s k (λ x. down_at id x s k)

unfoldable pub signal_at : ℕ → Condvar → Tables → Kernel → Outcome Result
signal_at id c s k = returns (
  done,
  record s { condvar_list = set_slot s.condvar_list id (Condvar.signal c k).0 },
  (Condvar.signal c k).1,
)

unfoldable pub sys_condvar_signal : ℕ → Tables → Kernel → Outcome Result
sys_condvar_signal id s k = on_slot (get_slot s.condvar_list id) s k (λ c. signal_at id c s k)

-- `wait`, up to where the task is off the processor; the lock of the mutex at its end is a call of
-- its own.
unfoldable pub wait_at : ℕ → ℕ → AnyMutex → Condvar → Tables → Kernel → Outcome Result
wait_at condvar_id mutex_id (blocking m) c s k = Condvar.wait c m k >>= λ r. returns (
  again,
  record s {
    mutex_list = set_slot s.mutex_list mutex_id (blocking r.1);
    condvar_list = set_slot s.condvar_list condvar_id r.0;
  },
  r.2,
)
wait_at condvar_id mutex_id (spinning m) c s k = Condvar.wait_no_sched c k >>= λ r. returns (
  again,
  record s {
    mutex_list = set_slot s.mutex_list mutex_id (spinning (unlock_spin m));
    condvar_list = set_slot s.condvar_list condvar_id r.0;
  },
  r.1,
)

unfoldable pub sys_condvar_wait : ℕ → ℕ → Tables → Kernel → Outcome Result
sys_condvar_wait condvar_id mutex_id s k = on_slot (get_slot s.mutex_list mutex_id) s k (λ m.
    on_slot (get_slot s.condvar_list condvar_id) s k (λ c. wait_at condvar_id mutex_id m c s k))
