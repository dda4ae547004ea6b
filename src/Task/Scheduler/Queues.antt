-- ===== src/Task/Scheduler/Queues.antt =====
-- Every task is in one place: the ready queue, the processor, or a queue of blocked tasks.
use rcore_os.Prelude.{
  ℕ, ◌==◌, ◌≡◌, refl, ap, sym, subst, true, false, List, [], ◌∷◌, ◌++◌, Option, none, some,
  if◌then◌else◌, returns, mem, mem-append, Distinct, arith, inl, inr, Bool-cases, ◌∙◌, ==_self,
}
use rcore_os.Task.Scheduler.{
  Kernel, ready, running, blocked, set_status, add_task, wakeup_task, suspend_current,
  block_current, run_next, run_from, take_current_task,
}

pub Distinct-append :
    (xs : List ℕ) (x : ℕ) → Distinct xs → mem x xs ≡ false → Distinct (xs ++ (x ∷ []))
Distinct-append [] x d h = (refl, tt)
Distinct-append (y ∷ ys) x d h =
    (ground (arith, mem-append y ys (x ∷ []), d.0), Distinct-append ys x d.1 (ground (arith, h)))

abbrev pub Runs : Kernel → Option ℕ → Type 0
Runs k none = Unit {0}
Runs k (some t) = k.task_status t ≡ running

-- The tasks in the ready queue are ready, the current one is running, those in `waiting` are
-- blocked, and no queue has a task twice. As a task has one status, it is in one place.
pub record Placed (k : Kernel) (waiting : List ℕ) : Type 0 where
  pub queue : Distinct k.ready_queue
  pub are_ready : (t : ℕ) → mem t k.ready_queue ≡ true → k.task_status t ≡ ready
  pub runs : Runs k k.current
  pub waits : Distinct waiting
  pub are_blocked : (t : ℕ) → mem t waiting ≡ true → k.task_status t ≡ blocked

pub ready-not_blocked : ready ≡ blocked → ⊥
ready-not_blocked e = cc

running-not_ready : running ≡ ready → ⊥
running-not_ready e = cc

running-not_blocked : running ≡ blocked → ⊥
running-not_blocked e = cc

decide_mem : (t : ℕ) (xs : List ℕ) → (mem t xs ≡ true → ⊥) → mem t xs ≡ false
decide_mem t xs h = ground arith

apart :
    (k : Kernel) (w : List ℕ) (t : ℕ) → Placed k w → mem t w ≡ true → mem t k.ready_queue ≡ false
apart k w t p m =
    decide_mem t k.ready_queue (λ r. ready-not_blocked (sym (p.are_ready t r) ∙ p.are_blocked t m))

Runs-other :
    (k : Kernel) (c : Option ℕ) (w : List ℕ) (t : ℕ)
    → Placed k w
    → mem t w ≡ true
    → Runs k c
    → Runs (wakeup_task k t) c
unfolding wakeup_task
Runs-other k none w t p m r = tt
Runs-other k (some c) w t p m r = elim (Bool-cases (t == c)) [
  | inl e ↦
      let same : t ≡ c = ground arith in
      absurd (running-not_blocked (sym r ∙ ap k.task_status (sym same) ∙ p.are_blocked t m))
  | inr e ↦ rw e r
]

-- Waking the first of the blocked tasks puts it behind the ready ones.
pub wakeup_task-Placed :
    (k : Kernel) (t : ℕ) (rest : List ℕ) → Placed k (t ∷ rest) → Placed (wakeup_task k t) rest
unfolding wakeup_task
wakeup_task-Placed k t rest p = record {
  queue = Distinct-append k.ready_queue t p.queue (apart k (t ∷ rest) t p (ground arith));
  are_ready = λ x m. elim (Bool-cases (t == x)) [
    | inl e ↦ rw e refl
    | inr e ↦ rw e (p.are_ready x (ground (arith, mem-append x k.ready_queue (t ∷ []))))
  ];
  runs = Runs-other k k.current (t ∷ rest) t p (ground arith) p.runs;
  waits = p.waits.1;
  are_blocked = λ x m. elim (Bool-cases (t == x)) [
    | inl e ↦ absurd (ground (arith, p.waits.0))
    | inr e ↦ rw e (p.are_blocked x (ground arith))
  ];
}

-- What a running task is not: ready or blocked.
pub running_apart :
    (k : Kernel) (w : List ℕ) (t : ℕ)
    → Placed k w
    → k.task_status t ≡ running
    → (mem t k.ready_queue ≡ false) × (mem t w ≡ false)
running_apart k w t p r = (
  decide_mem t k.ready_queue (λ m. running-not_ready (sym r ∙ p.are_ready t m)),
  decide_mem t w (λ m. running-not_blocked (sym r ∙ p.are_blocked t m)),
)

pub block_current-Placed :
    (k : Kernel) (t : ℕ) (w : List ℕ)
    → k.current ≡ some t
    → Placed k w
    → (k' : Kernel) × (block_current k ≡ returns k')
      × (k'.current ≡ none)
      × Placed k' (w ++ (t ∷ []))
unfolding block_current take_current_task set_status
block_current-Placed k t w e p =
    let (free, absent) = running_apart k w t p (subst (Runs k) e p.runs) in
    (
      record k { current = none; task_status = λ x. if t == x then blocked else k.task_status x },
      rw e refl,
      refl,
      record {
        queue = p.queue;
        are_ready = λ x m. elim (Bool-cases (t == x)) [
          | inl q ↦ absurd (ground (arith, free))
          | inr q ↦ rw q (p.are_ready x m)
        ];
        runs = tt;
        waits = Distinct-append w t p.waits absent;
        are_blocked = λ x m. elim (Bool-cases (t == x)) [
          | inl q ↦ rw q refl
          | inr q ↦ rw q (p.are_blocked x (ground (arith, mem-append x w (t ∷ []))))
        ];
      },
    )

pub suspend_current-Placed :
    (k : Kernel) (t : ℕ) (w : List ℕ)
    → k.current ≡ some t
    → Placed k w
    → (k' : Kernel) × (suspend_current k ≡ returns k') × (k'.current ≡ none) × Placed k' w
unfolding suspend_current take_current_task set_status add_task
suspend_current-Placed k t w e p =
    let (free, absent) = running_apart k w t p (subst (Runs k) e p.runs) in
    (
      record k {
        ready_queue = k.ready_queue ++ (t ∷ []);
        current = none;
        task_status = λ x. if t == x then ready else k.task_status x;
      },
      rw e refl,
      refl,
      record {
        queue = Distinct-append k.ready_queue t p.queue free;
        are_ready = λ x m. elim (Bool-cases (t == x)) [
          | inl q ↦ rw q refl
          | inr q ↦ rw q (p.are_ready x (ground (arith, mem-append x k.ready_queue (t ∷ []))))
        ];
        runs = tt;
        waits = p.waits;
        are_blocked = λ x m. elim (Bool-cases (t == x)) [
          | inl q ↦ absurd (ground (arith, absent))
          | inr q ↦ rw q (p.are_blocked x m)
        ];
      },
    )

run_from-Placed :
    (k : Kernel) (xs w : List ℕ)
    → k.ready_queue ≡ xs
    → k.current ≡ none
    → Placed k w
    → Placed (run_from xs k) w
unfolding run_from set_status
run_from-Placed k [] w e c p = p
run_from-Placed k (t ∷ rest) w e c p =
    let d : Distinct (t ∷ rest) = subst Distinct e p.queue in
    let was : k.task_status t ≡ ready = p.are_ready t (rw e (ground arith)) in
    record {
      queue = d.1;
      are_ready = λ x m. elim (Bool-cases (t == x)) [
        | inl q ↦ absurd (ground (arith, d.0))
        | inr q ↦ rw q (p.are_ready x (rw e (ground arith)))
      ];
      runs = rw (==_self t) refl;
      waits = p.waits;
      are_blocked = λ x m. elim (Bool-cases (t == x)) [
        | inl q ↦
            let same : t ≡ x = ground arith in
            absurd (ready-not_blocked (sym was ∙ ap k.task_status same ∙ p.are_blocked x m))
        | inr q ↦ rw q (p.are_blocked x m)
      ];
    }

pub run_next-Placed :
    (k : Kernel) (w : List ℕ) → k.current ≡ none → Placed k w → Placed (run_next k) w
unfolding run_next
run_next-Placed k w c p = run_from-Placed k k.ready_queue w refl c p
