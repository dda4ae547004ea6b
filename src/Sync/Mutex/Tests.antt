-- ===== src/Sync/Mutex/Tests.antt =====
-- Three tasks that share a mutex.
use rcore_os.Prelude.{ℕ, List, [], ◌∷◌}
use rcore_os.Sync.Mutex.Histories.{Op, locks, unlocks, yields, runs}

abbrev three : List ℕ
three = 1 ∷ 2 ∷ 3 ∷ []

-- The task 1 locks and yields, 2 and 3 wait, and 1 hands the mutex over to 2.
abbrev history : List Op
history = runs ∷ locks ∷ yields ∷ runs ∷ locks ∷ runs ∷ locks ∷ runs ∷ unlocks ∷ []
