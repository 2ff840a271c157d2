-- ===== src/Tty/Timer/Expiry.antt =====
-- What the check of the timers in servers/tty/src/lib.rs does.
use cyanos.Base.{ℕ, ◌≡◌, List, [], ◌∷◌, if◌then◌else◌, All}
use cyanos.Sched.Calls.{Sched, deliver_signal}
use cyanos.Tty.{Tty, PosixTimer}
use cyanos.Tty.Timer.{fired, is_due}

-- A timer after the check.
abbrev pub checked : ℕ → PosixTimer → PosixTimer
checked now timer = if is_due now timer then fired timer else timer

-- The scheduler after the signals of the timers that are due.
unfoldable pub signal_all : ℕ → List PosixTimer → Sched → Sched
signal_all now [] s = s
signal_all now (timer ∷ timers) s =
    signal_all now timers
      (if is_due now timer then (deliver_signal timer.owner_pid timer.signo s).1 else s)

-- No timer of a list repeats.
abbrev pub OneShot : List PosixTimer → Type 0
OneShot timers = All (λ t. t.interval ≡ 0) timers
