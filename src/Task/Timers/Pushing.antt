-- ===== src/Task/Timers/Pushing.antt =====
-- Putting a timer among the others.
use rcore_os.Prelude.{
  ℕ, ◌^◌, ◌≤◌, ◌<◌, ◌≡◌, refl, true, false, ◌||◌, ◌==◌, List, [], ◌∷◌, All, ltb, arith, inl, inr,
  Bool-cases, mem, Distinct,
}
use rcore_os.Task.Timers.{Timer, rank, push}
use rcore_os.Task.Timers.Waking.{sleepers, IsOrdered}

rank_less :
    (t u : Timer)
    → t.expire_ms < 2 ^ 63
    → u.expire_ms < 2 ^ 63
    → (ltb (rank u) (rank t) ≡ true → t.expire_ms < u.expire_ms)
      × (ltb (rank u) (rank t) ≡ false → u.expire_ms ≤ t.expire_ms)
unfolding rank
rank_less t u h k = (λ e. ground arith, λ e. ground arith)

pub mem-push :
    (x : ℕ) (t : Timer) (us : List Timer)
    → mem x (sleepers (push t us)) ≡ (mem x (sleepers us) || (t.task == x))
unfolding push
mem-push x t [] = ground arith
mem-push x t (u ∷ us) = elim (Bool-cases (ltb (rank u) (rank t))) [
  | inl e ↦ rw e (ground arith)
  | inr e ↦ rw e (ground (arith, mem-push x t us))
]

pub Distinct-push :
    (t : Timer) (us : List Timer)
    → Distinct (sleepers us)
    → mem t.task (sleepers us) ≡ false
    → Distinct (sleepers (push t us))
unfolding push
Distinct-push t [] d h = (refl, tt)
Distinct-push t (u ∷ us) d h = elim (Bool-cases (ltb (rank u) (rank t))) [
  | inl e ↦ rw e (h, d)
  | inr e ↦ rw e (ground (arith, mem-push u.task t us, d.0), Distinct-push t us d.1 (ground arith))
]

pub All-push :
    (P : Timer → Type 0) (t : Timer) (us : List Timer) → P t → All P us → All P (push t us)
unfolding push
All-push P t [] p a = (p, tt)
All-push P t (u ∷ us) p a = elim (Bool-cases (ltb (rank u) (rank t))) [
  | inl e ↦ rw e (p, a)
  | inr e ↦ rw e (a.0, All-push P t us p a.1)
]

All-later :
    (c d : ℕ) (us : List Timer)
    → c ≤ d
    → All (λ u. d ≤ u.expire_ms) us
    → All (λ u. c ≤ u.expire_ms) us
All-later c d [] h a = tt
All-later c d (u ∷ us) h a = (omega (arith, a.0), All-later c d us h a.1)

pub push-IsOrdered :
    (t : Timer) (us : List Timer)
    → t.expire_ms < 2 ^ 63
    → All (λ u. u.expire_ms < 2 ^ 63) us
    → IsOrdered us
    → IsOrdered (push t us)
unfolding push
push-IsOrdered t [] h a o = (tt, tt)
push-IsOrdered t (u ∷ us) h a o =
    let (less, more) = rank_less t u h a.0 in
    elim (Bool-cases (ltb (rank u) (rank t))) [
      | inl e ↦
          let l : t.expire_ms ≤ u.expire_ms = omega (arith, less e) in
          rw e ((l, All-later t.expire_ms u.expire_ms us l o.0), o)
      | inr e ↦ rw e (
        All-push (λ v. u.expire_ms ≤ v.expire_ms) t us (more e) o.0,
        push-IsOrdered t us h a.1 o.1,
      )
    ]
