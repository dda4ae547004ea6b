-- ===== src/Task/Timers/Waking.antt =====
-- What a tick of the clock wakes.
use rcore_os.Prelude.{
  ℕ, ◌≤◌, ◌<◌, ◌≡◌, true, List, [], ◌∷◌, All, leb, arith, inl, inr, Bool-cases, mem, mem-append,
}
use rcore_os.Task.Scheduler.{Kernel, wakeup_task}
use rcore_os.Task.Scheduler.Queues.{Placed, wakeup_task-Placed}
use rcore_os.Task.Timers.{Timer, check_timer}

abbrev pub sleepers : List Timer → List ℕ
sleepers [] = []
sleepers (t ∷ ts) = t.task ∷ sleepers ts

-- Earlier timers come first.
abbrev pub IsOrdered : List Timer → Type 0
IsOrdered [] = Unit
IsOrdered (t ∷ ts) = All (λ u. t.expire_ms ≤ u.expire_ms) ts × IsOrdered ts

-- What a tick has to deliver.
pub record Wakes (timers : List Timer) (now : ℕ) (k : Kernel) (r : List Timer × Kernel)
    : Type 0 where
  pub placed : Placed r.1 (sleepers r.0)
  pub ordered : IsOrdered r.0
  pub due : All (λ t. t.expire_ms ≤ now → mem t.task r.1.ready_queue ≡ true) timers
  pub asleep : All (λ t. now < t.expire_ms → mem t.task (sleepers r.0) ≡ true) timers
  pub later : All (λ t. now < t.expire_ms) r.0
  pub still : (x : ℕ) → mem x k.ready_queue ≡ true → mem x r.1.ready_queue ≡ true

All-after :
    (now c : ℕ) (ts : List Timer)
    → now < c
    → All (λ u. c ≤ u.expire_ms) ts
    → All (λ u. now < u.expire_ms) ts
All-after now c [] h a = tt
All-after now c (t ∷ ts) h a = (omega (arith, a.0), All-after now c ts h a.1)

none_due :
    (now : ℕ) (q : List ℕ) (ts : List Timer)
    → All (λ u. now < u.expire_ms) ts
    → All (λ t. t.expire_ms ≤ now → mem t.task q ≡ true) ts
none_due now q [] a = tt
none_due now q (t ∷ ts) a = (λ h. absurd (omega (arith, a.0)), none_due now q ts a.1)

all_asleep :
    (now : ℕ) (q : List ℕ) (ts : List Timer)
    → ((x : ℕ) → mem x (sleepers ts) ≡ true → mem x q ≡ true)
    → All (λ t. now < t.expire_ms → mem t.task q ≡ true) ts
all_asleep now q [] h = tt
all_asleep now q (t ∷ ts) h =
    (λ l. h t.task (ground arith), all_asleep now q ts (λ x m. h x (ground arith)))

-- A tick at the time `now`, when the timers stand in the order of their times and their tasks are
-- blocked, each with one timer: every task whose time has come is in the ready queue after it, every
-- other sleeps on, all timers that are left are later than `now`, and no ready task is lost.
pub check_timer-Wakes :
    (timers : List Timer) (now : ℕ) (k : Kernel)
    → Placed k (sleepers timers)
    → IsOrdered timers
    → Wakes timers now k (check_timer timers now k)
unfolding check_timer wakeup_task
check_timer-Wakes [] now k p o = record {
  placed = p;
  ordered = tt;
  due = tt;
  asleep = tt;
  later = tt;
  still = λ x m. m;
}
check_timer-Wakes (t ∷ ts) now k p o = elim (Bool-cases (leb t.expire_ms now)) [
  | inl e ↦
      let r =
        check_timer-Wakes ts now (wakeup_task k t.task)
          (wakeup_task-Placed k t.task (sleepers ts) p) o.1 in
      rw e (record {
        placed = r.placed;
        ordered = r.ordered;
        due = (
          λ h. r.still t.task (ground (arith, mem-append t.task k.ready_queue (t.task ∷ []))),
          r.due,
        );
        asleep = (λ h. absurd (ground arith), r.asleep);
        later = r.later;
        still = λ x m. r.still x (ground (arith, mem-append x k.ready_queue (t.task ∷ [])));
      })
  | inr e ↦
      let after : now < t.expire_ms = ground arith in
      let rest = All-after now t.expire_ms ts after o.0 in
      rw e (record {
        placed = p;
        ordered = o;
        due = none_due now k.ready_queue (t ∷ ts) (after, rest);
        asleep = all_asleep now (sleepers (t ∷ ts)) (t ∷ ts) (λ x m. m);
        later = (after, rest);
        still = λ x m. m;
      })
]

pub check_timer-All :
    (P : Timer → Type 0) (timers : List Timer) (now : ℕ) (k : Kernel)
    → All P timers
    → All P (check_timer timers now k).0
unfolding check_timer
check_timer-All P [] now k a = tt
check_timer-All P (t ∷ ts) now k a = elim (Bool-cases (leb t.expire_ms now)) [
  | inl e ↦ rw e (check_timer-All P ts now (wakeup_task k t.task) a.1)
  | inr e ↦ rw e a
]
