-- ===== src/Task/Timers/Tests.antt =====
-- Two tasks that sleep, the second for less time.
use rcore_os.Prelude.{◌≡◌, refl, [], ◌∷◌, returns, arith}
use rcore_os.Task.Timers.{check_timer}
use rcore_os.Task.Timers.Waking.{Wakes}
use rcore_os.Task.Timers.Sleeping.{System, sleeps, ticks, runs, run, start, run-start-Wakes}

run-start-Wakes_example :
    (s : System) × (run
        (start (1 ∷ 2 ∷ []))
        (runs ∷ sleeps 10 50 ∷ runs ∷ sleeps 11 5 ∷ ticks 12 ∷ [])
      ≡ returns s)
    × Wakes s.timers 20 s.kernel (check_timer s.timers 20 s.kernel)
run-start-Wakes_example =
    run-start-Wakes (1 ∷ 2 ∷ []) (runs ∷ sleeps 10 50 ∷ runs ∷ sleeps 11 5 ∷ ticks 12 ∷ []) 20
      (refl, (refl, tt)) (tt, (omega arith, (tt, (omega arith, (tt, tt)))))
