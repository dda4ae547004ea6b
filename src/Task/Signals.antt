-- ===== src/Task/Signals.antt =====
-- os/src/task/signal.rs and action.rs: the signals that end a process, and the table of the actions
-- that a process has set for its signals.
pub mod Actions
use rcore_os.Prelude.{
  ℕ, ◌^◌, Bool, true, false, List, [], ◌∷◌, Option, none, some, if◌then◌else◌, leb, ◌==◌, Outcome,
  returns, panics, ◌>>=◌, ◌>>◌, assert, unwrap, bit_and, get_elem?, set, replicate, ◌+◌,
}

abbrev pub max_sig : ℕ
max_sig = 31

-- `SignalFlags` with one bit, by the number of the signal.
abbrev pub signal_bit : ℕ → ℕ
signal_bit n = 2 ^ n

-- `SignalFlags::contains`, which `bitflags` generates.
abbrev pub has : ℕ → ℕ → Bool
has flags signal = bit_and flags signal == signal

-- `SignalFlags::check_error`: the number whose negative is the exit code; the message goes with it.
pub check_error : ℕ → Option ℕ
check_error flags =
    if has flags (signal_bit 2)
    then some 2
    else if has flags (signal_bit 4)
    then some 4
    else if has flags (signal_bit 6)
    then some 6
    else if has flags (signal_bit 8)
    then some 8
    else if has flags (signal_bit 9)
    then some 9
    else if has flags (signal_bit 11)
    then some 11
    else none

pub record SignalAction : Type 0 where
  pub handler : ℕ
  pub mask : ℕ

-- `SignalAction::default`
pub default_action : SignalAction
default_action = record { handler = 0; mask = 40 }

-- `SignalActions`: the entries of `table`.
abbrev pub SignalActions : Type 0
SignalActions = List SignalAction

-- `SignalActions::default`
pub default_actions : SignalActions
default_actions = replicate (max_sig + 1) default_action

pub get_action : SignalActions → ℕ → Outcome SignalAction
get_action table signum = do assert (leb signum max_sig); unwrap (get_elem? table signum)

pub is_masked : SignalActions → ℕ → ℕ → Outcome Bool
is_masked table signum signal = do a ← get_action table signum; returns (has a.mask signal)

pub get_handler : SignalActions → ℕ → Outcome ℕ
get_handler table signum = do a ← get_action table signum; returns a.handler

pub set_action : SignalActions → ℕ → SignalAction → Outcome SignalActions
set_action table signum action = do assert (leb signum max_sig); returns (set table signum action)
