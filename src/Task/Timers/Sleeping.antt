-- ===== src/Task/Timers/Sleeping.antt =====
-- Histories of tasks that sleep.
use rcore_os.Prelude.{
  ℕ, ◌+◌, ◌^◌, ◌<◌, ◌≡◌, refl, subst, List, [], ◌∷◌, Option, none, some, All, arith, mem-append,
  Distinct, Outcome, returns, ◌>>=◌, add_usize,
}
use rcore_os.Task.Scheduler.{Kernel, ready, block_current, suspend_current, run_next}
use rcore_os.Task.Scheduler.Queues.{
  Placed, running_apart, Runs, block_current-Placed, suspend_current-Placed, run_next-Placed,
}
use rcore_os.Task.Timers.{Timer, add_timer, check_timer, sys_sleep}
use rcore_os.Task.Timers.Waking.{sleepers, IsOrdered, Wakes, check_timer-Wakes, check_timer-All}
use rcore_os.Task.Timers.Pushing.{mem-push, Distinct-push, All-push, push-IsOrdered}

pub record System : Type 0 where
  pub timers : List Timer
  pub kernel : Kernel

-- `sleeps now ms` is a call at the time `now`, and `ticks now` a tick of the clock then.
pub data Op : Type 0 where
  sleeps : ℕ → ℕ → Op
  ticks : ℕ → Op
  yields runs : Op

after_tick : List Timer × Kernel → System
after_tick r = record { timers = r.0; kernel = r.1 }

-- The clock ticks at any time, the idle loop runs when there is no current task, and a task calls
-- when it is the current one.
step_as : Option ℕ → Op → System → Outcome System
step_as c (ticks now) s = returns (after_tick (check_timer s.timers now s.kernel))
step_as none runs s = returns (record s { kernel = run_next s.kernel })
step_as none (sleeps now ms) s = returns s
step_as none yields s = returns s
step_as (some c) (sleeps now ms) s =
    sys_sleep s.timers now ms s.kernel >>= λ r. returns (after_tick r)
step_as (some c) yields s = suspend_current s.kernel >>= λ k. returns (record s { kernel = k })
step_as (some c) runs s = returns s

pub run : System → List Op → Outcome System
unfolding step_as after_tick
run s [] = returns s
run s (op ∷ ops) = step_as s.kernel.current op s >>= λ s'. run s' ops

-- Times that `isize` can hold.
abbrev pub IsSmall : Op → Type 0
IsSmall (sleeps now ms) = now + ms < 2 ^ 63
IsSmall (ticks now) = Unit {0}
IsSmall yields = Unit {0}
IsSmall runs = Unit {0}

record IsAsleep (s : System) : Type 0 where
  placed : Placed s.kernel (sleepers s.timers)
  ordered : IsOrdered s.timers
  small : All (λ t. t.expire_ms < 2 ^ 63) s.timers

pub start : List ℕ → System
start tasks = record {
  timers = [];
  kernel = record { ready_queue = tasks; current = none; task_status = λ t. ready };
}

sys_sleep_lem :
    (timers : List Timer) (now ms c : ℕ) (k k' : Kernel)
    → k.current ≡ some c
    → block_current k ≡ returns k'
    → sys_sleep timers now ms k ≡ returns (add_timer timers (add_usize now ms) c, k')
unfolding sys_sleep
sys_sleep_lem timers now ms c k k' e b = rw (b, e) refl

abbrev Steps : Outcome System → Type 0
Steps o = (s' : System) × (o ≡ returns s') × IsAsleep s'

sleeps-Steps :
    (c : ℕ) (s : System) (now ms : ℕ)
    → s.kernel.current ≡ some c
    → now + ms < 2 ^ 63
    → IsAsleep s
    → Steps (step_as (some c) (sleeps now ms) s)
unfolding step_as add_timer after_tick
sleeps-Steps c s now ms cur h i =
    let w = sleepers s.timers in
    let t : Timer = record { expire_ms = add_usize now ms; task = c } in
    let (_, away) = running_apart s.kernel w c i.placed (subst (Runs s.kernel) cur i.placed.runs) in
    let (k', b, _, p) = block_current-Placed s.kernel c w cur i.placed in
    let fits : add_usize now ms < 2 ^ 63 = omega arith in
    rw (sys_sleep_lem s.timers now ms c s.kernel k' cur b) (
      _,
      refl,
      record {
        placed = record {
          queue = p.queue;
          are_ready = p.are_ready;
          runs = p.runs;
          waits = Distinct-push t s.timers i.placed.waits away;
          are_blocked = λ x m.
              p.are_blocked x
                (ground (arith, mem-push x t s.timers, mem-append x (sleepers s.timers) (c ∷ [])));
        };
        ordered = push-IsOrdered t s.timers fits i.small i.ordered;
        small = All-push (λ u. u.expire_ms < 2 ^ 63) t s.timers fits i.small;
      },
    )

ticks-Steps :
    (s : System) (now : ℕ)
    → IsAsleep s
    → Steps (returns (after_tick (check_timer s.timers now s.kernel)))
unfolding after_tick
ticks-Steps s now i =
    let r = check_timer-Wakes s.timers now s.kernel i.placed i.ordered in
    (
      _,
      refl,
      record {
        placed = r.placed;
        ordered = r.ordered;
        small = check_timer-All (λ t. t.expire_ms < 2 ^ 63) s.timers now s.kernel i.small;
      },
    )

step_as-Steps :
    (current : Option ℕ) (op : Op) (s : System)
    → s.kernel.current ≡ current
    → IsSmall op
    → IsAsleep s
    → Steps (step_as current op s)
unfolding step_as
step_as-Steps none (ticks now) s cur h i = ticks-Steps s now i
step_as-Steps (some c) (ticks now) s cur h i = ticks-Steps s now i
step_as-Steps none runs s cur h i = (
  _,
  refl,
  record {
    placed = run_next-Placed s.kernel (sleepers s.timers) cur i.placed;
    ordered = i.ordered;
    small = i.small;
  },
)
step_as-Steps none (sleeps now ms) s cur h i = (s, refl, i)
step_as-Steps none yields s cur h i = (s, refl, i)
step_as-Steps (some c) (sleeps now ms) s cur h i = sleeps-Steps c s now ms cur h i
step_as-Steps (some c) yields s cur h i =
    let (k', e, _, p) = suspend_current-Placed s.kernel c (sleepers s.timers) cur i.placed in
    rw e (_, refl, record { placed = p; ordered = i.ordered; small = i.small })
step_as-Steps (some c) runs s cur h i = (s, refl, i)

run-Steps : (s : System) (ops : List Op) → All IsSmall ops → IsAsleep s → Steps (run s ops)
unfolding run
run-Steps s [] h i = (s, refl, i)
run-Steps s (op ∷ ops) h i =
    let (s₁, e₁, i₁) = step_as-Steps s.kernel.current op s refl h.0 i in
    let (s₂, e₂, i₂) = run-Steps s₁ ops h.1 i₁ in (s₂, rw e₁ e₂, i₂)

-- From any distinct tasks on, however they sleep until times that `isize` can hold, yield and are run,
-- and whenever the clock ticks, nothing panics; and after all that, a tick at any time `now` puts every
-- sleeping task whose time has come into the ready queue, lets exactly the others sleep on, and loses
-- no ready task.
pub run-start-Wakes :
    (tasks : List ℕ) (ops : List Op) (now : ℕ)
    → Distinct tasks
    → All IsSmall ops
    → (s : System) × (run (start tasks) ops ≡ returns s)
      × Wakes s.timers now s.kernel (check_timer s.timers now s.kernel)
unfolding start
run-start-Wakes tasks ops now d h =
    let (s, e, i) = run-Steps (start tasks) ops h (record {
      placed = record {
        queue = d;
        are_ready = λ t m. refl;
        runs = tt;
        waits = tt;
        are_blocked = λ t m. absurd (ground arith);
      };
      ordered = tt;
      small = tt;
    }) in
    (s, e, check_timer-Wakes s.timers now s.kernel i.placed i.ordered)
