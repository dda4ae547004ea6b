-- ===== src/Sync/Condvar/Monitor/Waiting.antt =====
-- Waiting and signalling in a monitor.
use rcore_os.Prelude.{
  ℕ, ◌≡◌, refl, subst, ◌∙◌, true, false, ◌==◌, List, [], ◌∷◌, ◌++◌, append_assoc, some, returns,
  mem, mem-append, arith, inl, inr, Bool-cases,
}
use rcore_os.Task.Scheduler.{Kernel, block_current, wakeup_task}
use rcore_os.Task.Scheduler.Queues.{Placed, wakeup_task-Placed, block_current-Placed}
use rcore_os.Sync.Mutex.{MutexBlocking, unlock}
use rcore_os.Sync.Condvar.{Condvar, wake_first, signal, wait_no_sched, wait}
use rcore_os.Sync.Condvar.Monitor.{System, do_wait, do_signal, signalled, IsMonitor}
use rcore_os.Sync.Condvar.Monitor.Queues.{Placed-swap}
use rcore_os.Sync.Condvar.Monitor.Locking.{Steps, unlock-Unlocked}

wait_lem :
    (v : Condvar) (m m' : MutexBlocking) (k k' k'' : Kernel) (c : ℕ)
    → unlock m k ≡ returns (m', k')
    → k'.current ≡ some c
    → block_current k' ≡ returns k''
    → wait v m k ≡ returns (record { wait_queue = v.wait_queue ++ (c ∷ []) }, m', k'')
unfolding wait wait_no_sched
wait_lem v m m' k k' k'' c u e b = rw (u, b, e) refl

pub do_wait-Steps :
    (c : ℕ) (s : System)
    → s.kernel.current ≡ some c
    → mem c s.inside ≡ true
    → mem c s.returning ≡ false
    → IsMonitor s
    → Steps (do_wait c s)
unfolding do_wait
do_wait-Steps c s cur inn not_back i =
    let mq = s.mutex.wait_queue in
    let cq = s.condvar.wait_queue in
    let u = unlock-Unlocked c s s.inside cur inn refl i in
    let mq' = u.mutex'.wait_queue in
    let (k', b, _, p) =
      block_current-Placed u.kernel' c (mq' ++ cq) (u.same ∙ cur) u.sound.placed in
    rw (wait_lem s.condvar s.mutex u.mutex' s.kernel u.kernel' k' c u.is (u.same ∙ cur) b, u.into)
      (
        _,
        refl,
        record {
          placed = subst (Placed k') (append_assoc mq' cq (c ∷ [])) p;
          holds = u.sound.holds;
          alone = λ x m. (
            ground (arith, (u.sound.alone x m).0, u.out, m, mem-append x cq (c ∷ [])),
            (u.sound.alone x m).1,
          );
          apart = λ x m. elim (Bool-cases (c == x)) [
            | inl q ↦
                let same : c ≡ x = ground arith in
                subst (λ x. mem x s.returning ≡ false) same not_back
            | inr q ↦ u.sound.apart x (
                ground (
                  arith,
                  mem-append x mq' (cq ++ (c ∷ [])),
                  mem-append x cq (c ∷ []),
                  mem-append x mq' cq,
                ))
          ];
        },
      )

signalled-IsMonitor :
    (s : System) (ws : List ℕ)
    → s.condvar.wait_queue ≡ ws
    → IsMonitor s
    → IsMonitor (record s {
      kernel = (wake_first ws s.condvar s.kernel).1;
      condvar = (wake_first ws s.condvar s.kernel).0;
      returning = signalled ws s.returning;
    })
unfolding wake_first
signalled-IsMonitor s [] e i = i
signalled-IsMonitor s (t ∷ ws) e i =
    let mq = s.mutex.wait_queue in
    let p : Placed s.kernel (t ∷ ws ++ mq) =
      Placed-swap s.kernel mq (t ∷ ws) (subst (λ w. Placed s.kernel (mq ++ w)) e i.placed) in
    let alone =
      subst (λ w. (x : ℕ) → mem x s.inside ≡ true → (mem x w ≡ false) × (mem x s.returning ≡ false))
        e i.alone in
    let apart =
      subst (λ w. (x : ℕ) → mem x (mq ++ w) ≡ true → mem x s.returning ≡ false) e i.apart in
    let fresh = p.waits.0 in
    record {
      placed =
          Placed-swap (wakeup_task s.kernel t) ws mq (wakeup_task-Placed s.kernel t (ws ++ mq) p);
      holds = i.holds;
      alone = λ x m. (ground (arith, (alone x m).0), ground (arith, (alone x m).0, (alone x m).1));
      apart = λ x m. ground (
        arith,
        fresh,
        m,
        mem-append x mq ws,
        mem-append t ws mq,
        mem-append x mq (t ∷ ws),
        apart x,
      );
    }

pub do_signal-IsMonitor : (s : System) → IsMonitor s → IsMonitor (do_signal s)
unfolding do_signal signal
do_signal-IsMonitor s i = signalled-IsMonitor s s.condvar.wait_queue refl i
