-- ===== src/Sync/Condvar/Monitor/Queues.antt =====
-- Two queues of waiting tasks, in either order, and the lists of a monitor.
use rcore_os.Prelude.{
  ℕ, ◌≡◌, refl, sym, subst, ◌∙◌, false, List, [], ◌∷◌, ◌++◌, append-nil, some, mem, mem-append,
  Distinct, arith,
}
use rcore_os.Task.Scheduler.{Kernel}
use rcore_os.Task.Scheduler.Queues.{Placed, running_apart, Runs}
use rcore_os.Sync.Mutex.Histories.{leave}
use rcore_os.Sync.Condvar.Monitor.{System, IsMonitor}

Distinct-front :
    (xs ys : List ℕ) (y : ℕ)
    → Distinct (xs ++ ys)
    → mem y (xs ++ ys) ≡ false
    → Distinct (xs ++ (y ∷ ys))
Distinct-front [] ys y d h = (h, d)
Distinct-front (x ∷ xs) ys y d h = (
  ground (arith, mem-append x xs ys, mem-append x xs (y ∷ ys), d.0),
  Distinct-front xs ys y d.1 (ground (arith, h)),
)

Distinct-swap : (xs ys : List ℕ) → Distinct (xs ++ ys) → Distinct (ys ++ xs)
Distinct-swap [] ys d = subst Distinct (sym (append-nil ys)) d
Distinct-swap (x ∷ xs) ys d =
    Distinct-front ys xs x (Distinct-swap xs ys d.1)
      (ground (arith, mem-append x ys xs, mem-append x xs ys, d.0))

pub mem-swap : (x : ℕ) (xs ys : List ℕ) → mem x (xs ++ ys) ≡ mem x (ys ++ xs)
mem-swap x xs ys = ground (arith, mem-append x xs ys, mem-append x ys xs)

-- The order of two queues does not matter.
pub Placed-swap : (k : Kernel) (xs ys : List ℕ) → Placed k (xs ++ ys) → Placed k (ys ++ xs)
Placed-swap k xs ys p = record {
  queue = p.queue;
  are_ready = p.are_ready;
  runs = p.runs;
  waits = Distinct-swap xs ys p.waits;
  are_blocked = λ t m. p.are_blocked t (mem-swap t xs ys ∙ m);
}

pub mem-leave : (x c : ℕ) (xs : List ℕ) → mem x xs ≡ false → mem x (leave c xs) ≡ false
mem-leave x c [] h = refl
mem-leave x c (y ∷ ys) h = ground (arith, mem-leave x c ys)

pub leave-gone : (c : ℕ) (xs : List ℕ) → mem c (leave c xs) ≡ false
leave-gone c [] = refl
leave-gone c (y ∷ ys) = ground (arith, leave-gone c ys)

-- The current task waits in no queue.
pub current-apart :
    (s : System) (c : ℕ)
    → s.kernel.current ≡ some c
    → IsMonitor s
    → (mem c s.mutex.wait_queue ≡ false) × (mem c s.condvar.wait_queue ≡ false)
current-apart s c cur i =
    let w = s.mutex.wait_queue ++ s.condvar.wait_queue in
    let (_, away) = running_apart s.kernel w c i.placed (subst (Runs s.kernel) cur i.placed.runs) in
    (
      ground (arith, away, mem-append c s.mutex.wait_queue s.condvar.wait_queue),
      ground (arith, away, mem-append c s.mutex.wait_queue s.condvar.wait_queue),
    )
