-- ===== src/Sync/Spin/Tests.antt =====
-- Two tasks that spin on a mutex.
use rcore_os.Prelude.{refl, List, [], ◌∷◌}
use rcore_os.Sync.Spin.{Turn, tries, releases, gives_way, idles, take_turns}
use rcore_os.Sync.Spin.Turns.{Continues, all_ready, take_turns-all_ready-Continues}

-- The task 1 locks and yields, 2 tries and yields, 1 unlocks, and 2 locks.
abbrev spinning : List Turn
spinning =
    idles ∷ tries ∷ gives_way ∷ idles ∷ tries ∷ idles ∷ releases ∷ gives_way ∷ idles ∷ tries ∷ []

take_turns-all_ready-Continues_example : Continues (take_turns (all_ready (1 ∷ 2 ∷ [])) spinning)
take_turns-all_ready-Continues_example =
    take_turns-all_ready-Continues (1 ∷ 2 ∷ []) spinning (refl, (refl, tt))
