-- ===== src/Task/Signals/Actions.antt =====
-- The table of actions reads back what was set, and only a signal that is pending ends a process.
use rcore_os.Prelude.{
  ℕ, ◌≤◌, ◌≡◌, refl, ap, ◌∙◌, true, false, Option, none, some, if◌then◌else◌, ◌==◌, returns, ◌>>=◌,
  arith, le→leb, ==_self, ==_of_ne, ℕ_discrete, length, length-set, set, get_or,
  get_elem?-eq-get_or, get_or-set_self, get_or-set_ne, Bool-cases, inl, inr,
}
use rcore_os.Task.Signals.{
  signal_bit, has, check_error, SignalAction, SignalActions, get_action, set_action,
}

get_action-entry :
    (table : SignalActions) (n : ℕ) (a : SignalAction)
    → length table ≡ 32
    → n ≤ 31
    → get_action table n ≡ returns (get_or table n a)
unfolding get_action
get_action-entry table n a full h =
    rw (le→leb n 31 h, get_elem?-eq-get_or table n a (omega arith)) refl

-- Setting the action of the signal `n` in a full table does not panic; `get_action` then gives it for
-- `n`, and for every other signal what it gave before.
pub get_action-set_action :
    (table : SignalActions) (n m : ℕ) (a : SignalAction)
    → length table ≡ 32
    → n ≤ 31
    → m ≤ 31
    → (set_action table n a >>= λ t. get_action t m)
      ≡ (if n == m then returns a else get_action table m)
unfolding set_action
get_action-set_action table n m a full h k =
    let full' = length-set table n a ∙ full in
    let read = get_action-entry (set table n a) m a full' k in
    rw (le→leb n 31 h, read)
      (elim (ℕ_discrete n m) [
        | yes same ↦ rw (same, ==_self m) (ap returns (get_or-set_self table m a a (omega arith)))
        | no other ↦
            rw (==_of_ne n m other, get_action-entry table m a full k)
              (ap returns (get_or-set_ne table a a other))
      ])

-- The result of `check_error`: a signal that is in the flags, or none of the six.
abbrev pub IsPending : ℕ → Option ℕ → Type 0
IsPending flags (some n) = has flags (signal_bit n) ≡ true
IsPending flags none =
    (has flags (signal_bit 2) ≡ false)
    × (has flags (signal_bit 4) ≡ false)
    × (has flags (signal_bit 6) ≡ false)
    × (has flags (signal_bit 8) ≡ false)
    × (has flags (signal_bit 9) ≡ false)
    × (has flags (signal_bit 11) ≡ false)

-- `check_error` gives a signal that is in the flags, and none only where none of SIGINT, SIGILL,
-- SIGABRT, SIGFPE, SIGKILL and SIGSEGV is.
pub check_error-IsPending : (flags : ℕ) → IsPending flags (check_error flags)
unfolding check_error
check_error-IsPending flags = elim (Bool-cases (has flags (signal_bit 2))) [
  | inl a ↦ rw a a
  | inr a ↦ rw a (elim (Bool-cases (has flags (signal_bit 4))) [
    | inl b ↦ rw b b
    | inr b ↦ rw b (elim (Bool-cases (has flags (signal_bit 6))) [
      | inl c ↦ rw c c
      | inr c ↦ rw c (elim (Bool-cases (has flags (signal_bit 8))) [
        | inl d ↦ rw d d
        | inr d ↦ rw d (elim (Bool-cases (has flags (signal_bit 9))) [
          | inl e ↦ rw e e
          | inr e ↦ rw e (elim (Bool-cases (has flags (signal_bit 11))) [
            | inl f ↦ rw f f
            | inr f ↦ rw f ((a, b, c, d, e, f))
          ])
        ])
      ])
    ])
  ])
]
