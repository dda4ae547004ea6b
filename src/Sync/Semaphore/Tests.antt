-- ===== src/Sync/Semaphore/Tests.antt =====
-- Three tasks that share a semaphore.
use rcore_os.Prelude.{◌≡◌, refl, List, [], ◌∷◌, returns, arith}
use rcore_os.Sync.Semaphore.Histories.{
  System, Op, raises, lowers, yields, runs, start, run, Counted,
}
use rcore_os.Sync.Semaphore.Histories.Counting.{run-start-Counted}

-- Of two resources, the tasks 1 and 2 take one each, 3 waits, and is woken by 1.
abbrev history : List Op
history = runs ∷ lowers ∷ yields ∷ runs ∷ lowers ∷ yields ∷ runs ∷ lowers ∷ runs ∷ raises ∷ []

run-start-Counted_example :
    (s : System) × (run (start 2 (1 ∷ 2 ∷ 3 ∷ [])) history ≡ returns s) × Counted 2 s
run-start-Counted_example =
    run-start-Counted 2 (1 ∷ 2 ∷ 3 ∷ []) history (refl, (refl, (refl, tt))) (omega arith)
