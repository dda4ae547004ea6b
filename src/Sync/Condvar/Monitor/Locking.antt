-- ===== src/Sync/Condvar/Monitor/Locking.antt =====
-- Locking and unlocking in a monitor.
use rcore_os.Prelude.{
  ℕ, ◌≡◌, refl, ap, sym, subst, ◌∙◌, true, false, ◌==◌, List, [], ◌∷◌, ◌++◌, append_assoc, some,
  Outcome, returns, mem, mem-append, arith, inl, inr, Bool-cases,
}
use rcore_os.Task.Scheduler.{Kernel, wakeup_task}
use rcore_os.Task.Scheduler.Queues.{Placed, wakeup_task-Placed, block_current-Placed}
use rcore_os.Sync.Mutex.{MutexBlocking, unlock, hand_over}
use rcore_os.Sync.Mutex.Histories.{leave, woken, Holds}
use rcore_os.Sync.Mutex.Histories.Exclusion.{lock-free, lock-waits, unlock-held, leave_one}
use rcore_os.Sync.Condvar.Monitor.{System, do_lock, do_unlock, IsMonitor}
use rcore_os.Sync.Condvar.Monitor.Queues.{Placed-swap, mem-leave, leave-gone, current-apart}

-- What a step has to deliver.
abbrev pub Steps : Outcome System → Type 0
Steps o = (s' : System) × (o ≡ returns s') × IsMonitor s'

pub do_lock-Steps :
    (c : ℕ) (s : System)
    → s.kernel.current ≡ some c
    → mem c s.inside ≡ false
    → (xs : List ℕ) → s.inside ≡ xs
    → IsMonitor s
    → Steps (do_lock c s)
unfolding do_lock
do_lock-Steps c s cur out [] e i =
    let h : Holds [] s.mutex = subst (λ ys. Holds ys s.mutex) e i.holds in
    let (away, gone) = current-apart s c cur i in
    rw (lock-free s.mutex s.kernel h.0, h.0, e)
      (
        _,
        refl,
        record {
          placed = i.placed;
          holds = (refl, away);
          alone = λ t m.
              let same : c ≡ t = ground arith in
              subst
                (λ t. (mem t s.condvar.wait_queue ≡ false) × (mem t (leave c s.returning) ≡ false))
                same (gone, leave-gone c s.returning);
          apart = λ t m. mem-leave t c s.returning (i.apart t m);
        },
      )
do_lock-Steps c s cur out (t ∷ []) e i =
    let mq = s.mutex.wait_queue in
    let cq = s.condvar.wait_queue in
    let h : Holds (t ∷ []) s.mutex = subst (λ ys. Holds ys s.mutex) e i.holds in
    let (k', b, _, p) =
      block_current-Placed s.kernel c (cq ++ mq) cur (Placed-swap s.kernel mq cq i.placed) in
    let placed : Placed k' ((mq ++ (c ∷ [])) ++ cq) =
      Placed-swap k' cq (mq ++ (c ∷ [])) (subst (Placed k') (append_assoc cq mq (c ∷ [])) p) in
    let other : mem c (t ∷ []) ≡ false = subst (λ ys. mem c ys ≡ false) e out in
    rw (lock-waits s.mutex s.kernel k' c h.0 cur b, h.0)
      (
        _,
        refl,
        record {
          placed = placed;
          holds =
              subst (λ ys. Holds ys (record { locked = true; wait_queue = mq ++ (c ∷ []) })) (sym e)
                (refl, ground (arith, mem-append t mq (c ∷ []), h.1));
          alone = λ x m. ((i.alone x m).0, mem-leave x c s.returning (i.alone x m).1);
          apart = λ x m. elim (Bool-cases (c == x)) [
            | inl q ↦
                let same : c ≡ x = ground arith in
                subst (λ x. mem x (leave c s.returning) ≡ false) same (leave-gone c s.returning)
            | inr q ↦ mem-leave x c s.returning (
                i.apart x (
                  ground (
                    arith,
                    mem-append x (mq ++ (c ∷ [])) cq,
                    mem-append x mq (c ∷ []),
                    mem-append x mq cq,
                  )))
          ];
        },
      )
do_lock-Steps c s cur out (t ∷ u ∷ ts) e i = absurd (subst (λ ys. Holds ys s.mutex) e i.holds)

-- What an unlock by the task inside delivers: the system after it, which the task is not inside of.
pub record Unlocked (c : ℕ) (s : System) : Type 0 where
  pub mutex' : MutexBlocking
  pub kernel' : Kernel
  pub inside' : List ℕ
  pub is : unlock s.mutex s.kernel ≡ returns (mutex', kernel')
  pub into : woken s.mutex.wait_queue (leave c s.inside) ≡ inside'
  pub same : kernel'.current ≡ s.kernel.current
  pub out : mem c inside' ≡ false
  pub sound : IsMonitor (record s { kernel = kernel'; mutex = mutex'; inside = inside' })

hand_over-Unlocked :
    (c : ℕ) (s : System) (ws : List ℕ)
    → s.mutex.wait_queue ≡ ws
    → s.mutex.locked ≡ true
    → leave c s.inside ≡ []
    → mem c s.mutex.wait_queue ≡ false
    → IsMonitor s
    → Unlocked c s
unfolding hand_over wakeup_task
hand_over-Unlocked c s [] e l gone away i = record {
  mutex' = record s.mutex { locked = false };
  kernel' = s.kernel;
  inside' = [];
  is = unlock-held s.mutex s.kernel l ∙ rw e refl;
  into = rw (e, gone) refl;
  same = refl;
  out = refl;
  sound = record { placed = i.placed; holds = (refl, e); alone = λ t m. cc; apart = i.apart };
}
hand_over-Unlocked c s (t ∷ ws) e l gone away i =
    let cq = s.condvar.wait_queue in
    let p : Placed s.kernel (t ∷ ws ++ cq) = subst (λ w. Placed s.kernel (w ++ cq)) e i.placed in
    let apart : (x : ℕ) → mem x (t ∷ ws ++ cq) ≡ true → mem x s.returning ≡ false =
      subst (λ w. (x : ℕ) → mem x (w ++ cq) ≡ true → mem x s.returning ≡ false) e i.apart in
    let elsewhere : mem c (t ∷ ws) ≡ false = subst (λ w. mem c w ≡ false) e away in
    let fresh = p.waits.0 in
    record {
      mutex' = record s.mutex { wait_queue = ws };
      kernel' = wakeup_task s.kernel t;
      inside' = t ∷ [];
      is = unlock-held s.mutex s.kernel l ∙ rw e refl;
      into = rw (e, gone) refl;
      same = refl;
      out = ground arith;
      sound = record {
        placed = wakeup_task-Placed s.kernel t (ws ++ cq) p;
        holds = (l, ground (arith, fresh, mem-append t ws cq));
        alone = λ x m.
            let eq : t ≡ x = ground arith in
            subst (λ x. (mem x cq ≡ false) × (mem x s.returning ≡ false)) eq
              (ground (arith, fresh, mem-append t ws cq), apart t (ground arith));
        apart = λ x m. apart x (ground arith);
      };
    }

pub unlock-Unlocked :
    (c : ℕ) (s : System) (xs : List ℕ)
    → s.kernel.current ≡ some c
    → mem c s.inside ≡ true
    → s.inside ≡ xs
    → IsMonitor s
    → Unlocked c s
unlock-Unlocked c s [] cur inn e i =
    absurd (let z : mem c [] ≡ true = subst (λ ys. mem c ys ≡ true) e inn in ground arith)
unlock-Unlocked c s (t ∷ []) cur inn e i =
    let h : Holds (t ∷ []) s.mutex = subst (λ ys. Holds ys s.mutex) e i.holds in
    let z : mem c (t ∷ []) ≡ true = subst (λ ys. mem c ys ≡ true) e inn in
    hand_over-Unlocked c s s.mutex.wait_queue refl h.0 (ap (leave c) e ∙ leave_one c t z)
      (current-apart s c cur i).0 i
unlock-Unlocked c s (t ∷ u ∷ ts) cur inn e i = absurd (subst (λ ys. Holds ys s.mutex) e i.holds)

pub do_unlock-Steps :
    (c : ℕ) (s : System)
    → s.kernel.current ≡ some c
    → mem c s.inside ≡ true
    → IsMonitor s
    → Steps (do_unlock c s)
unfolding do_unlock
do_unlock-Steps c s cur inn i =
    let u = unlock-Unlocked c s s.inside cur inn refl i in rw (u.is, u.into) (_, refl, u.sound)
