-- ===== src/Sync/Mutex/Histories/Exclusion.antt =====
-- Mutual exclusion by the blocking mutex, over histories of tasks that lock from outside, unlock from
-- inside, and yield.
use rcore_os.Prelude.{
  ℕ, ◌≡◌, refl, ap, true, false, [], ◌∷◌, ◌++◌, some, Outcome, returns, ◌>>◌, assert, mem, arith,
}
use rcore_os.Task.Scheduler.{Kernel, block_current}
use rcore_os.Sync.Mutex.{MutexBlocking, lock, unlock, hand_over}
use rcore_os.Sync.Mutex.Histories.{System, leave, Exclusive}

-- What a step has to deliver.
abbrev pub Steps : Outcome System → Type 0
Steps o = (s' : System) × (o ≡ returns s') × Exclusive s'

pub lock-free :
    (m : MutexBlocking) (k : Kernel)
    → m.locked ≡ false
    → lock m k ≡ returns (record m { locked = true }, k)
unfolding lock
lock-free m k e = rw (e, lock) refl

pub lock-waits :
    (m : MutexBlocking) (k k' : Kernel) (t : ℕ)
    → m.locked ≡ true
    → k.current ≡ some t
    → block_current k ≡ returns k'
    → lock m k ≡ returns (record m { wait_queue = m.wait_queue ++ (t ∷ []) }, k')
unfolding lock
lock-waits m k k' t e c b = rw (e, lock, b, c) refl

pub leave_one : (c t : ℕ) → mem c (t ∷ []) ≡ true → leave c (t ∷ []) ≡ []
leave_one c t e = ground arith

pub unlock-held :
    (m : MutexBlocking) (k : Kernel)
    → m.locked ≡ true
    → unlock m k ≡ returns (hand_over m.wait_queue m k)
unfolding unlock
unlock-held m k e = ap (λ b. assert b >> returns (hand_over m.wait_queue m k)) e
