-- ===== src/Sync/Semaphore/Histories/Counting.antt =====
-- A semaphore gives out as many resources as it has, over every history of its use.
use rcore_os.Prelude.{
  ℕ, suc, ◌+◌, ◌^◌, ◌<◌, ◌≡◌, ◌⊎◌, inl, inr, refl, ap, subst, true, false, List, [], ◌∷◌, Option,
  none, some, Outcome, returns, length, length-append, Distinct, arith, Bool-cases, sub_usize,
  eq-nil_of_length,
}
use rcore_os.Task.Scheduler.Queues.{
  Placed, wakeup_task-Placed, block_current-Placed, suspend_current-Placed, run_next-Placed,
}
use rcore_os.Sync.Semaphore.{up, down, wake_first, is_negative}
use rcore_os.Sync.Semaphore.Histories.{
  System, Op, raises, lowers, yields, runs, do_up, do_down, by_task, step_as, step, run, Counted,
  start,
}

-- The calls so far, and those to come, are few enough for the count.
abbrev pub Few : ℕ → ℕ → System → Type 0
Few n left s = n + s.ups + length s.semaphore.wait_queue + left < 2 ^ 63

-- What a step has to deliver, `left` steps being left after it.
abbrev pub Steps : ℕ → ℕ → Outcome System → Type 0
Steps n left o = (s' : System) × (o ≡ returns s') × Counted n s' × Few n left s'

-- Whoever waits, waits because everything is given out.
nobody_else : {n p : ℕ} (ws : List ℕ) → 0 < length ws → (ws ≡ []) ⊎ (p ≡ n) → p ≡ n
nobody_else ws h (inl e) = absurd (omega (arith, ap length e))
nobody_else ws h (inr e) = e

up-Counted :
    (n left : ℕ) (s : System) (ws : List ℕ)
    → s.semaphore.wait_queue ≡ ws
    → Counted n s
    → Few n (suc left) s
    → Steps n left (returns (do_up s))
unfolding do_up up wake_first
up-Counted n left s [] e c f =
    let none : length s.semaphore.wait_queue ≡ 0 = ap length e in
    rw e (
      _,
      refl,
      record {
        placed = subst (Placed s.kernel) e c.placed;
        fair = omega (arith, c.fair);
        prompt = inl refl;
        tally = omega (arith, c.tally, c.fair, none, f);
      },
      omega (arith, f, none),
    )
up-Counted n left s (t ∷ ws) e c f =
    let some_wait : length s.semaphore.wait_queue ≡ suc (length ws) = ap length e in
    let all_out : s.passed ≡ n + s.ups =
      nobody_else s.semaphore.wait_queue (omega arith) c.prompt in
    rw e (
      _,
      refl,
      record {
        placed = wakeup_task-Placed s.kernel t ws (subst (Placed s.kernel) e c.placed);
        fair = omega (arith, all_out);
        prompt = inr (omega (arith, all_out));
        tally = omega (arith, c.tally, all_out, some_wait, f);
      },
      omega (arith, f, some_wait),
    )

-- A call of `down` that finds nothing left.
down_blocks :
    (n left t : ℕ) (s : System)
    → s.kernel.current ≡ some t
    → is_negative (sub_usize s.semaphore.count 1) ≡ true
    → Counted n s
    → Few n (suc left) s
    → Steps n left (do_down s)
unfolding do_down down
down_blocks n left t s cur neg c f =
    let (k', b, _, p) = block_current-Placed s.kernel t s.semaphore.wait_queue cur c.placed in
    let all_out : s.passed ≡ n + s.ups = ground (arith, c.tally, c.fair, f, c.prompt) in
    let size = length-append s.semaphore.wait_queue (t ∷ []) in
    rw (neg, b, cur)
      (
        _,
        refl,
        record {
          placed = p;
          fair = c.fair;
          prompt = inr all_out;
          tally = omega (arith, c.tally, all_out, size, f);
        },
        omega (arith, f, size),
      )

down_passes :
    (n left : ℕ) (s : System)
    → is_negative (sub_usize s.semaphore.count 1) ≡ false
    → Counted n s
    → Few n (suc left) s
    → Steps n left (do_down s)
unfolding do_down down
down_passes n left s pos c f =
    let empty : length s.semaphore.wait_queue ≡ 0 = elim c.prompt [
      | inl e ↦ ap length e
      | inr a ↦ ground (arith, c.tally, f)
    ] in
    let some_left : s.passed < n + s.ups = ground (arith, c.tally, c.fair, f) in
    rw pos (
      _,
      refl,
      record {
        placed = c.placed;
        fair = omega (arith, some_left);
        prompt = inl (eq-nil_of_length s.semaphore.wait_queue empty);
        tally = omega (arith, c.tally, empty, some_left, f);
      },
      omega (arith, f),
    )

by_task-Steps :
    (n left t : ℕ) (op : Op) (s : System)
    → s.kernel.current ≡ some t
    → Counted n s
    → Few n (suc left) s
    → Steps n left (by_task op s)
unfolding by_task
by_task-Steps n left t raises s cur c f = up-Counted n left s s.semaphore.wait_queue refl c f
by_task-Steps n left t lowers s cur c f =
    elim (Bool-cases (is_negative (sub_usize s.semaphore.count 1))) [
      | inl neg ↦ down_blocks n left t s cur neg c f
      | inr pos ↦ down_passes n left s pos c f
    ]
by_task-Steps n left t yields s cur c f =
    let (k', e, _, p) = suspend_current-Placed s.kernel t s.semaphore.wait_queue cur c.placed in
    rw e (
      _,
      refl,
      record { placed = p; fair = c.fair; prompt = c.prompt; tally = c.tally },
      omega (arith, f),
    )
by_task-Steps n left t runs s cur c f = (s, refl, c, omega (arith, f))

step_as-Steps :
    (n left : ℕ) (current : Option ℕ) (op : Op) (s : System)
    → s.kernel.current ≡ current
    → Counted n s
    → Few n (suc left) s
    → Steps n left (step_as current op s)
unfolding step_as
step_as-Steps n left none runs s cur c f = (
  _,
  refl,
  record {
    placed = run_next-Placed s.kernel s.semaphore.wait_queue cur c.placed;
    fair = c.fair;
    prompt = c.prompt;
    tally = c.tally;
  },
  omega (arith, f),
)
step_as-Steps n left none raises s cur c f = (s, refl, c, omega (arith, f))
step_as-Steps n left none lowers s cur c f = (s, refl, c, omega (arith, f))
step_as-Steps n left none yields s cur c f = (s, refl, c, omega (arith, f))
step_as-Steps n left (some t) op s cur c f = by_task-Steps n left t op s cur c f

run-Steps :
    (n : ℕ) (ops : List Op) (s : System)
    → Counted n s
    → Few n (length ops) s
    → Steps n 0 (run s ops)
unfolding run step
run-Steps n [] s c f = (s, refl, c, f)
run-Steps n (op ∷ ops) s c f =
    let (s₁, e₁, c₁, f₁) = step_as-Steps n (length ops) s.kernel.current op s refl c f in
    let (s₂, e₂, c₂, f₂) = run-Steps n ops s₁ c₁ f₁ in (s₂, rw e₁ e₂, c₂, f₂)

-- From any distinct tasks and a semaphore of `n` resources on, in every history of fewer than
-- 2^63 - n steps: nothing panics; `down` has let through no more calls than `n` and the calls of `up`,
-- and exactly as many while a task waits; the count is what is left, or minus the number of waiting
-- tasks. The tasks in the ready queue are ready, the current one is running, those in the semaphore's
-- queue are blocked, and no queue has a task twice.
pub run-start-Counted :
    (n : ℕ) (tasks : List ℕ) (ops : List Op)
    → Distinct tasks
    → n + length ops < 2 ^ 63
    → (s : System) × (run (start n tasks) ops ≡ returns s) × Counted n s
unfolding start
run-start-Counted n tasks ops d h =
    let (s, e, c, _) =
      run-Steps n ops (start n tasks)
        (record {
          placed = record {
            queue = d;
            are_ready = λ t m. refl;
            runs = tt;
            waits = tt;
            are_blocked = λ t m. absurd (ground arith);
          };
          fair = omega arith;
          prompt = inl refl;
          tally = omega (arith, h);
        })
        (omega (arith, h)) in
    (s, e, c)
