-- ===== src/Tty/Timer.antt =====
-- The timers of the processes in servers/tty/src/lib.rs: the four calls, and the check that fires
-- them. A tick is a hundredth of a second.
pub mod Expiry
use cyanos.Base.{
  ℕ, ◌+◌, ◌-◌, ◌*◌, ◌/◌, ◌%◌, ◌^◌, Bool, true, not, ◌&&◌, Option, none, some, List, [], ◌∷◌, ltb,
  leb, ◌==◌, if◌then◌else◌, get_or, set, add64, locate, position,
}
use cyanos.Sched.Calls.{Sched, deliver_signal}
use cyanos.Server.Memory.{load_word, store_word}
use cyanos.Server.Wire.{Reply, value, errno}
use cyanos.Tty.{Tty, PosixTimer, ProcTimerTable, max_timers, new_timer}

abbrev pub timers_of : ℕ → ProcTimerTable → Bool
timers_of pid t = t.in_use && (t.pid == pid)

abbrev timers_unused : ProcTimerTable → Bool
timers_unused t = not t.in_use

abbrev timer_unused : PosixTimer → Bool
timer_unused t = not t.in_use

abbrev pub put_timers : ℕ → ProcTimerTable → Tty → Tty
put_timers i t v = record v { timer_tables = set v.timer_tables i t }

-- The table of a process, or an unused one, taken as it is.
unfoldable timers_for : ℕ → List ProcTimerTable → Option (ℕ × ProcTimerTable)
timers_for pid tbls = elim (locate (timers_of pid) tbls) [
  | some (i, t) ↦ some (i, t)
  | none ↦ elim (locate timers_unused tbls) [
    | none ↦ none
    | some (i, t) ↦ some (i, record t { in_use = true; pid = pid })
  ]
]

unfoldable pub handle_timer_create : ℕ → ℕ → ℕ → Tty → Reply × Tty
unfolding timers_for store_word
handle_timer_create pid signo timerid_ptr v = elim (timers_for pid v.timer_tables) [
  | none ↦ (errno 12, v)
  | some (i, t) ↦ elim (position timer_unused t.timers) [
    | none ↦ (errno 11, put_timers i t v)
    | some slot ↦
        let timer = record new_timer { in_use = true; signo = signo; owner_pid = pid } in
        let v' = put_timers i (record t { timers = set t.timers slot timer }) v in
        (
          value 0,
          if timerid_ptr == 0
              then v'
              else record v' { memory = store_word 4 timerid_ptr slot v'.memory },
        )
  ]
]

-- `sec * TICK_HZ + nsec / (1_000_000_000 / TICK_HZ)`.
abbrev to_ticks : ℕ → ℕ → ℕ
to_ticks sec nsec = add64 (sec * 100 % 2 ^ 64) (nsec / 10000000)

-- `timerid < MAX_TIMERS && tbl.timers[timerid].in_use`, in the table of the process.
unfoldable pub timer_at : ℕ → ℕ → List ProcTimerTable → Option (ℕ × ProcTimerTable × PosixTimer)
timer_at pid timerid tbls = elim (locate (timers_of pid) tbls) [
  | none ↦ none
  | some (i, t) ↦
      if leb max_timers timerid
      then none
      else let timer = get_or t.timers timerid new_timer in
        if timer.in_use then some (i, t, timer) else none
]

abbrev pub put_timer : ℕ → ProcTimerTable → ℕ → PosixTimer → Tty → Tty
put_timer i t timerid timer v = put_timers i (record t { timers = set t.timers timerid timer }) v

-- A value of less than a tick disarms the timer.
unfoldable pub armed : ℕ → ℕ → ℕ → PosixTimer → PosixTimer
armed now interval_ticks value_ticks timer = record timer {
  interval = interval_ticks;
  deadline = if value_ticks == 0 then 0 else add64 now value_ticks;
}

unfoldable pub handle_timer_settime : ℕ → ℕ → ℕ → Tty → Reply × Tty
unfolding timer_at armed load_word
handle_timer_settime pid timerid ispec_ptr v =
    let interval_ticks =
      to_ticks (load_word 8 ispec_ptr v.memory) (load_word 8 (ispec_ptr + 8) v.memory) in
    let value_ticks =
      to_ticks (load_word 8 (ispec_ptr + 16) v.memory) (load_word 8 (ispec_ptr + 24) v.memory) in
    if ispec_ptr == 0 then (errno 14, v) else elim (timer_at pid timerid v.timer_tables) [
      | none ↦ (value 0, v)
      | some (i, t, timer) ↦
          (value 0, put_timer i t timerid (armed v.now interval_ticks value_ticks timer) v)
    ]

abbrev pub remaining : ℕ → PosixTimer → ℕ
remaining now timer = if ltb now timer.deadline then timer.deadline - now else 0

unfoldable pub handle_timer_gettime : ℕ → ℕ → ℕ → Tty → Reply × Tty
unfolding timer_at store_word
handle_timer_gettime pid timerid ospec_ptr v =
    if ospec_ptr == 0 then (errno 14, v) else elim (timer_at pid timerid v.timer_tables) [
      | none ↦ (errno 22, v)
      | some (i, t, timer) ↦
          let left = remaining v.now timer in
          (
            value 0,
            record v {
              memory = store_word 8 (ospec_ptr + 24) (left % 100 * 10000000) (
                  store_word 8 (ospec_ptr + 16) (left / 100) (
                    store_word 8 (ospec_ptr + 8) (timer.interval % 100 * 10000000)
                      (store_word 8 ospec_ptr (timer.interval / 100) v.memory)));
            },
          )
    ]

unfoldable pub handle_timer_delete : ℕ → ℕ → Tty → Reply × Tty
handle_timer_delete pid timerid v = elim (locate (timers_of pid) v.timer_tables) [
  | none ↦ (value 0, v)
  | some (i, t) ↦
      if ltb timerid max_timers then (value 0, put_timer i t timerid new_timer v) else (value 0, v)
]

abbrev pub is_due : ℕ → PosixTimer → Bool
is_due now timer = timer.in_use && (not (timer.deadline == 0) && leb timer.deadline now)

-- The deadline moves by one interval, even if more of them have passed.
abbrev pub fired : PosixTimer → PosixTimer
fired timer =
    if timer.interval == 0
    then record timer { deadline = 0 }
    else record timer { deadline = add64 timer.deadline timer.interval }

-- The loop over the timers of a process: each one that is due sends its signal.
unfoldable pub fire_all : ℕ → List PosixTimer → Sched → List PosixTimer × Sched
unfolding deliver_signal
fire_all now [] s = ([], s)
fire_all now (timer ∷ timers) s =
    let s' = if is_due now timer then (deliver_signal timer.owner_pid timer.signo s).1 else s in
    let (rest, s'') = fire_all now timers s' in
    ((if is_due now timer then fired timer else timer) ∷ rest, s'')

unfoldable pub check_timers : ℕ → Tty → Sched → Tty × Sched
unfolding fire_all
check_timers pid v s = elim (locate (timers_of pid) v.timer_tables) [
  | none ↦ (v, s)
  | some (i, t) ↦
      let (timers, s') = fire_all v.now t.timers s in
      (put_timers i (record t { timers = timers }) v, s')
]
