-- ===== src/Tty/Tests.antt =====
-- Witnesses of the properties of the terminal server.
use cyanos.Base.{ℕ, ◌%◌, ◌≡◌, refl, true, false, [], ◌∷◌, arith, set, replicate, locate}
use cyanos.Server.Memory.{load}
use cyanos.Server.Ring.Refine.{new-Holds}
use cyanos.Server.Wire.{value}
use cyanos.Sched.Calls
use cyanos.Sched.Calls.{Sched}
use cyanos.Tty.{
  Tty, TtyEntry, TtyKind, ProcTtyTable, PosixTimer, ProcTimerTable, pts_master, pts_slave, start,
  empty_table, empty_tty, new_pair, tty_at, tty_buf,
}
use cyanos.Tty.Line.{handle_read, handle_write}
use cyanos.Tty.Line.Session.{IsEnd, handle_read-handle_write_pts}

-- A memory whose byte at an address is the lowest one of the address.
abbrev ramp : ℕ → ℕ
ramp a = a % 256

abbrev end_ : TtyKind → TtyEntry
end_ kind = record empty_tty { kind = kind; in_use = true }

-- Process 5 holds the master and the slave of a pair.
abbrev table : ProcTtyTable
unfolding empty_table replicate
table = record empty_table {
  pid = 5;
  in_use = true;
  ttys = set (set empty_table.ttys 0 (end_ (pts_master 0))) 1 (end_ (pts_slave 0));
}

-- A timer of process 5 that is due, and one that is not.
abbrev due : PosixTimer
due = record { in_use = true; signo = 14; interval = 0; deadline = 30; owner_pid = 5 }

abbrev later : PosixTimer
later = record { in_use = true; signo = 10; interval = 0; deadline = 90; owner_pid = 5 }

abbrev timers : ProcTimerTable
timers = record { pid = 5; timers = due ∷ later ∷ []; in_use = true }

abbrev tty : Tty
tty = record (start ramp) {
  tables = table ∷ [];
  pairs = record new_pair { in_use = true } ∷ [];
  timer_tables = timers ∷ [];
  now = 40;
}

abbrev idle : Sched
unfolding Calls.init
idle = Calls.init

master : IsEnd 5 512 0 true tty
unfolding tty_at locate empty_table start replicate
master = (0, 0, table, end_ (pts_master 0), refl, refl)

slave : IsEnd 5 513 0 false tty
unfolding tty_at locate empty_table start replicate
slave = (1, 0, table, end_ (pts_slave 0), refl, refl)

handle_read-handle_write_pts_example :
    (v1 v2 : Tty) × (handle_write 5 512 100 7 tty ≡ (value 7, v1))
    × (handle_read 5 513 300 7 v1 ≡ (value 7, v2))
    × (load 7 300 v2.memory ≡ load 7 100 tty.memory)
unfolding new_pair
handle_read-handle_write_pts_example =
    handle_read-handle_write_pts 5 512 5 513 0 true 100 300 7 tty master slave (omega arith)
      (new-Holds tty_buf (omega arith)) (omega arith)
