-- ===== src/Tty/Call.antt =====
-- `close_all` and the dispatch `handle` of servers/tty/src/lib.rs.
use cyanos.Base.{ℕ, ◌%◌, ◌^◌, none, some, ◌==◌, if◌then◌else◌, set, locate}
use cyanos.Ipc.Message.{Message}
use cyanos.Server.Wire.{Reply, errno, arg, make_reply}
use cyanos.Tty.{Tty, find_tty, empty_table, empty_timers}
use cyanos.Tty.Control.{handle_ioctl, handle_isatty}
use cyanos.Tty.Line.{handle_open, handle_read, handle_write, handle_close}
use cyanos.Tty.Timer.{
  timers_of, handle_timer_create, handle_timer_settime, handle_timer_gettime, handle_timer_delete,
}

-- The pairs of the masters stay in use.
unfoldable close_all : ℕ → Tty → Tty
unfolding empty_table empty_timers
close_all pid v =
    let v' : Tty = elim (find_tty pid v.tables) [
      | none ↦ v
      | some (i, t) ↦ record v { tables = set v.tables i empty_table }
    ] in
    elim (locate (timers_of pid) v.timer_tables) [
      | none ↦ v'
      | some (i, t) ↦ record v' { timer_tables = set v.timer_tables i empty_timers }
    ]

unfoldable pub dispatch : ℕ → Message → Tty → Reply × Tty
dispatch pid msg v =
    let a : ℕ → ℕ = λ n. arg msg n in
    if msg.tag == 64
    then handle_open pid (a 0) v
    else if msg.tag == 65
    then handle_read pid (a 0) (a 1) (a 2) v
    else if msg.tag == 66
    then handle_write pid (a 0) (a 1) (a 2) v
    else if msg.tag == 67
    then handle_ioctl pid (a 0) (a 1) (a 2) v
    else if msg.tag == 68
    then handle_close pid (a 0) v
    else if msg.tag == 69
    then (handle_isatty pid (a 0) v, v)
    else if msg.tag == 80
    then handle_timer_create pid (a 0 % 2 ^ 32) (a 1) v
    else if msg.tag == 81
    then handle_timer_settime pid (a 0) (a 1) v
    else if msg.tag == 82
    then handle_timer_gettime pid (a 0) (a 1) v
    else if msg.tag == 83
    then handle_timer_delete pid (a 0) v
    else (errno 38, v)

unfoldable pub handle : ℕ → Message → Tty → Message × Tty
unfolding dispatch make_reply
handle pid msg v = let (r, v') = dispatch pid msg v in (make_reply r, v')
