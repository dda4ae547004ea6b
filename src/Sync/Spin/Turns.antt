-- ===== src/Sync/Spin/Turns.antt =====
-- One task at most holds a spinning mutex.
use rcore_os.Prelude.{
  ℕ, ◌≡◌, refl, ap, true, false, List, [], ◌∷◌, Option, none, some, if◌then◌else◌, ◌==◌, Outcome,
  returns, mem, Distinct, arith, inl, inr, Bool-cases,
}
use rcore_os.Task.Scheduler.{Kernel, ready, suspend_current}
use rcore_os.Task.Scheduler.Queues.{Placed, suspend_current-Placed, run_next-Placed}
use rcore_os.Sync.Spin.{
  MutexSpin, new_spin, lock_round, unlock_spin, Shared, Turn, tries, releases, gives_way, idles,
  without, try_lock, turn_of, turn_as, take_turns,
}

-- Nobody is inside and the mutex is free, or one task is and it is locked.
abbrev pub Guards : List ℕ → MutexSpin → Type 0
Guards [] m = m.locked ≡ false
Guards (t ∷ []) m = m.locked ≡ true
Guards (t ∷ u ∷ ts) m = ⊥

pub record Alone (s : Shared) : Type 0 where
  pub placed : Placed s.kernel []
  pub guards : Guards s.inside s.mutex

abbrev pub Continues : Outcome Shared → Type 0
Continues o = (s : Shared) × (o ≡ returns s) × Alone s

lock_round-free :
    (m : MutexSpin) (k : Kernel)
    → m.locked ≡ false
    → lock_round m k ≡ returns (true, record { locked = true }, k)
unfolding lock_round
lock_round-free m k e = rw e refl

lock_round-taken :
    (m : MutexSpin) (k k' : Kernel)
    → m.locked ≡ true
    → suspend_current k ≡ returns k'
    → lock_round m k ≡ returns (false, m, k')
unfolding lock_round
lock_round-taken m k k' e b =
    rw (b) (
      ap (λ x. if x then returns (false, m, k') else returns (true, record { locked = true }, k)) e)

try_lock-Continues :
    (c : ℕ) (k : Kernel) (m : MutexSpin) (xs : List ℕ)
    → k.current ≡ some c
    → Placed k []
    → Guards xs m
    → Continues (try_lock c (record { kernel = k; mutex = m; inside = xs }))
unfolding try_lock
try_lock-Continues c k m [] cur p g =
    rw (lock_round-free m k g) (_, refl, record { placed = p; guards = refl })
try_lock-Continues c k m (t ∷ []) cur p g =
    let (k', b, _, p') = suspend_current-Placed k c [] cur p in
    rw (lock_round-taken m k k' g b) (_, refl, record { placed = p'; guards = g })
try_lock-Continues c k m (t ∷ u ∷ ts) cur p g = elim g [ ]

release-Guards :
    (c : ℕ) (m : MutexSpin) (xs : List ℕ)
    → mem c xs ≡ true
    → Guards xs m
    → Guards (without c xs) (unlock_spin m)
unfolding unlock_spin
release-Guards c m [] h g = refl
release-Guards c m (t ∷ u ∷ ts) h g = elim g [ ]
release-Guards c m (t ∷ []) h g = elim (Bool-cases (t == c)) [
  | inl e ↦ rw e refl
  | inr e ↦ absurd (ground arith)
]

turn_of-Continues :
    (op : Turn) (c : ℕ) (s : Shared)
    → s.kernel.current ≡ some c
    → Alone s
    → Continues (turn_of op c s)
unfolding turn_of
turn_of-Continues tries c s cur x = elim (Bool-cases (mem c s.inside)) [
  | inl e ↦ rw e (s, refl, x)
  | inr e ↦ rw e (try_lock-Continues c s.kernel s.mutex s.inside cur x.placed x.guards)
]
turn_of-Continues releases c s cur x = elim (Bool-cases (mem c s.inside)) [
  | inl e ↦
      rw e (
        _,
        refl,
        record { placed = x.placed; guards = release-Guards c s.mutex s.inside e x.guards },
      )
  | inr e ↦ rw e (s, refl, x)
]
turn_of-Continues gives_way c s cur x =
    let (k', e, _, p) = suspend_current-Placed s.kernel c [] cur x.placed in
    rw e (_, refl, record { placed = p; guards = x.guards })
turn_of-Continues idles c s cur x = (s, refl, x)

turn_as-Continues :
    (current : Option ℕ) (op : Turn) (s : Shared)
    → s.kernel.current ≡ current
    → Alone s
    → Continues (turn_as current op s)
unfolding turn_as
turn_as-Continues none idles s cur x =
    (_, refl, record { placed = run_next-Placed s.kernel [] cur x.placed; guards = x.guards })
turn_as-Continues none tries s cur x = (s, refl, x)
turn_as-Continues none releases s cur x = (s, refl, x)
turn_as-Continues none gives_way s cur x = (s, refl, x)
turn_as-Continues (some c) op s cur x = turn_of-Continues op c s cur x

take_turns-Continues : (s : Shared) (ops : List Turn) → Alone s → Continues (take_turns s ops)
unfolding take_turns
take_turns-Continues s [] x = (s, refl, x)
take_turns-Continues s (op ∷ ops) x =
    let (s₁, e₁, x₁) = turn_as-Continues s.kernel.current op s refl x in
    let (s₂, e₂, x₂) = take_turns-Continues s₁ ops x₁ in (s₂, rw e₁ e₂, x₂)

-- A kernel whose tasks are all ready, with a new mutex.
abbrev pub all_ready : List ℕ → Shared
all_ready tasks = record {
  kernel = record { ready_queue = tasks; current = none; task_status = λ t. ready };
  mutex = new_spin;
  inside = [];
}

-- From any distinct tasks on, in every history of tasks that try to lock, unlock and yield and of the
-- idle loop that runs them, in which a task tries to lock only when it is outside the mutex and
-- unlocks only when it is inside (a turn that would break this rule is skipped; `unlock` itself does
-- not check who calls it): nothing panics and one task at most is inside the spinning mutex, which is locked exactly then. The
-- tasks in the ready queue are ready, the current one is running, and the queue has no task twice.
pub take_turns-all_ready-Continues :
    (tasks : List ℕ) (ops : List Turn)
    → Distinct tasks
    → Continues (take_turns (all_ready tasks) ops)
unfolding new_spin
take_turns-all_ready-Continues tasks ops d = take_turns-Continues (all_ready tasks) ops (record {
  placed = record {
    queue = d;
    are_ready = λ t m. refl;
    runs = tt;
    waits = tt;
    are_blocked = λ t m. absurd (ground arith);
  };
  guards = refl;
})
