-- ===== src/Sched/Calls/Exits.antt =====
-- The exit log of sched/src/lib.rs and `wait_pid`.
use cyanos.Base.{
  ℕ, zero, suc, ◌<◌, ◌≡◌, refl, ◌∙◌, ◌≢◌, Bool, true, not, Option, none, some, [], ◌∷◌, arith, ◌==◌,
  length, get_or, set, length-set,
}
use cyanos.Sched.RunQueue.{find_pid_idx}
use cyanos.Sched.Calls.{
  Sched, ExitLog, ExitRecord, exit_log_len, log_exit, find_exit, get_exit_code,
}
use cyanos.Sched.Calls.Loop.{wait_pid_turn, Waited}

-- The log is a ring that never writes out of bounds.
abbrev pub HasLog : Sched → Type 0
HasLog s = (length s.exit_log ≡ exit_log_len) × (s.exit_log_idx < exit_log_len)

log_exit-HasLog : (pid code : ℕ) (s : Sched) → HasLog s → HasLog (log_exit pid code s)
unfolding log_exit
log_exit-HasLog pid code s (h, h') = (
  length-set s.exit_log s.exit_log_idx (some (record { pid = pid; code = code })) ∙ h,
  omega arith,
)

-- A pid that is not in the log is found once an entry of it is written.
find_exit-set :
    (pid code i : ℕ) (log : ExitLog)
    → i < length log
    → find_exit pid log ≡ none
    → find_exit pid (set log i (some (record { pid = pid; code = code }))) ≡ some code
unfolding find_exit
find_exit-set pid code i [] h e = absurd (omega arith)
find_exit-set pid code zero (x ∷ log) h e = ground (arith)
find_exit-set pid code (suc i) (none ∷ log) h e = find_exit-set pid code i log (omega arith) e
find_exit-set pid code (suc i) (some r ∷ log) h e =
    ground (arith, find_exit-set pid code i log (omega arith))

-- The entry of the log that is overwritten is not of this pid.
abbrev pub keeps : ℕ → Option ExitRecord → Bool
keeps pid none = true
keeps pid (some r) = not (r.pid == pid)

find_exit-set_other :
    (pid other code i : ℕ) (log : ExitLog)
    → pid ≢ other
    → keeps other (get_or log i none) ≡ true
    → find_exit other (set log i (some (record { pid = pid; code = code }))) ≡ find_exit other log
unfolding find_exit
find_exit-set_other pid other code i [] ne e = refl
find_exit-set_other pid other code zero (none ∷ log) ne e = ground arith
find_exit-set_other pid other code zero (some r ∷ log) ne e = ground arith
find_exit-set_other pid other code (suc i) (none ∷ log) ne e =
    find_exit-set_other pid other code i log ne e
find_exit-set_other pid other code (suc i) (some r ∷ log) ne e =
    ground (arith, find_exit-set_other pid other code i log ne e)

-- A pid that the log does not know is known once its exit is logged.
pub get_exit_code-log_exit_self :
    (pid code : ℕ) (s : Sched)
    → HasLog s
    → get_exit_code pid s ≡ none
    → get_exit_code pid (log_exit pid code s) ≡ some code
unfolding get_exit_code log_exit
get_exit_code-log_exit_self pid code s (h, h') new =
    find_exit-set pid code s.exit_log_idx s.exit_log (omega arith) new

-- Once the exit of a task that the log does not know is logged, `wait_pid` for it returns its code,
-- if it is no longer in the run queue.
wait_pid_turn-log_exit :
    (pid code : ℕ) (s : Sched)
    → HasLog s
    → get_exit_code pid s ≡ none
    → find_pid_idx pid s.run_queue ≡ none
    → (wait_pid_turn pid (log_exit pid code s)).0 ≡ Waited.exited code
unfolding wait_pid_turn log_exit get_exit_code
wait_pid_turn-log_exit pid code s (h, h') new gone =
    let logged = find_exit-set pid code s.exit_log_idx s.exit_log (omega arith) new in
    rw (wait_pid_turn, gone, logged) refl

-- The exit of one task does not change the code that is reported for another, unless the log is full
-- and the oldest entry is that one's.
get_exit_code-log_exit :
    (pid other code : ℕ) (s : Sched)
    → pid ≢ other
    → keeps other (get_or s.exit_log s.exit_log_idx none) ≡ true
    → get_exit_code other (log_exit pid code s) ≡ get_exit_code other s
unfolding get_exit_code log_exit
get_exit_code-log_exit pid other code s ne e =
    find_exit-set_other pid other code s.exit_log_idx s.exit_log ne e
