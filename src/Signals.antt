-- ===== src/Signals.antt =====
-- SignalHandler.h and SignalHandler.cpp: the stop flag and the descriptor that a signal wakes the
-- selector by. They are static, so there is one of each; every function works on them under
-- signal_lock, with the signals blocked.
pub mod Delivery
use universal_fencing_hub.Base.{
  ℕ, suc, ◌+◌, Bool, true, false, List, [], ◌∷◌, Option, none, some, if◌then◌else◌,
}
use universal_fencing_hub.NetClient.{Fd}

-- `written` lists the descriptors that a trigger byte was written to, the latest first.
pub record SignalHandler : Type 0 where
  pub signal_flag : Bool
  pub wakeup_fd : Fd
  pub written : List ℕ

-- What write returns: a count, or -1 with EINTR, or -1 with another error.
pub data WriteResult : Type 0 where
  wrote interrupted refused : WriteResult

-- The static members, and what the constructor sets.
unfoldable pub initial : SignalHandler
initial = record { signal_flag = false; wakeup_fd = none; written = [] }

unfoldable pub signal : SignalHandler → SignalHandler
signal s = record s { signal_flag = true }

unfoldable pub is_signaled : SignalHandler → Bool
is_signaled s = s.signal_flag

unfoldable pub enable_wakeup_fd : SignalHandler → ℕ → SignalHandler
enable_wakeup_fd s fd = record s { wakeup_fd = some fd }

unfoldable pub disable_wakeup_fd : SignalHandler → SignalHandler
disable_wakeup_fd s = record s { wakeup_fd = none }

-- The loop of the handler, over what write returns; `none` says that it still runs when the calls are
-- used up.
unfoldable pub write_trigger : SignalHandler → ℕ → List WriteResult → Option SignalHandler
write_trigger s fd [] = none
write_trigger s fd (wrote ∷ calls) = some (record s { written = fd ∷ s.written })
write_trigger s fd (interrupted ∷ calls) = write_trigger s fd calls
write_trigger s fd (refused ∷ calls) = some s

unfoldable pub ufh_signal_handler : SignalHandler → List WriteResult → Option SignalHandler
unfolding write_trigger
ufh_signal_handler s calls = elim s.wakeup_fd [
  | none ↦ some (record s { signal_flag = true })
  | some fd ↦ write_trigger (record s { signal_flag = true }) fd calls
]
