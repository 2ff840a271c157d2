-- ===== src/Tty.antt =====
-- servers/tty/src/lib.rs: the state of the terminal server. The children model its handlers: `Line`
-- (open, read, write, close), `Control` (ioctl and isatty), `Timer` (the timers of the processes) and
-- `Call` (exit and the dispatch). `Session` and `Expiry` state what they promise.
--
-- The tables behind the server's locks are the fields of one record; `now` is the tick counter, which
-- stands still during a call.
pub mod Line
pub mod Control
pub mod Timer
pub mod Call
mod Tests
use cyanos.Base.{
  ℕ, ◌+◌, ◌-◌, Bool, true, false, not, ◌&&◌, Option, none, some, List, [], ◌∷◌, ltb, leb, ◌==◌,
  if◌then◌else◌, get_or, set, replicate, locate, position,
}
use cyanos.Server.Memory.{UserMemory}
use cyanos.Server.Ring
use cyanos.Server.Ring.{ByteRing}

abbrev pub tty_fd_base : ℕ
tty_fd_base = 512

abbrev pub max_procs : ℕ
max_procs = 64

abbrev max_ttys : ℕ
max_ttys = 4

abbrev pub max_timers : ℕ
max_timers = 8

abbrev pub tty_buf : ℕ
tty_buf = 4096

abbrev max_pts : ℕ
max_pts = 8

pub record Termios : Type 0 where
  pub c_iflag : ℕ
  pub c_oflag : ℕ
  pub c_cflag : ℕ
  pub c_lflag : ℕ
  pub c_line : ℕ
  pub c_cc : List ℕ

abbrev pub default_console : Termios
default_console = record {
  c_iflag = 1280;
  c_oflag = 5;
  c_cflag = 1215;
  c_lflag = 35387;
  c_line = 0;
  c_cc = 0 ∷ 0 ∷ 127 ∷ 21 ∷ 4 ∷ 0 ∷ 0 ∷ 0 ∷ 0 ∷ 26 ∷ 0 ∷ 17 ∷ 18 ∷ 23 ∷ 22 ∷ 0 ∷ 0 ∷ 0 ∷ 0 ∷ [];
}

-- `TtyKind::None` is `no_tty`.
pub data TtyKind : Type 0 where
  no_tty console : TtyKind
  pts_master : ℕ → TtyKind
  pts_slave : ℕ → TtyKind

pub record TtyEntry : Type 0 where
  pub kind : TtyKind
  pub in_use : Bool
  pub termios : Termios

abbrev pub empty_tty : TtyEntry
empty_tty = record { kind = no_tty; in_use = false; termios = default_console }

pub record ProcTtyTable : Type 0 where
  pub pid : ℕ
  pub ttys : List TtyEntry
  pub in_use : Bool

unfoldable pub empty_table : ProcTtyTable
unfolding replicate
empty_table = record { pid = 0; ttys = replicate max_ttys empty_tty; in_use = false }

abbrev pub Tables : Type 0
Tables = List ProcTtyTable

-- The slave reads `m_to_s`, the master `s_to_m`.
pub record PtsPair : Type 0 where
  pub in_use : Bool
  pub m_to_s : ByteRing
  pub s_to_m : ByteRing

unfoldable pub new_pair : PtsPair
unfolding Ring.new
new_pair = record { in_use = false; m_to_s = Ring.new tty_buf; s_to_m = Ring.new tty_buf }

pub record PosixTimer : Type 0 where
  pub in_use : Bool
  pub signo : ℕ
  pub interval : ℕ
  pub deadline : ℕ
  pub owner_pid : ℕ

abbrev pub new_timer : PosixTimer
new_timer = record { in_use = false; signo = 0; interval = 0; deadline = 0; owner_pid = 0 }

pub record ProcTimerTable : Type 0 where
  pub pid : ℕ
  pub timers : List PosixTimer
  pub in_use : Bool

unfoldable pub empty_timers : ProcTimerTable
unfolding replicate
empty_timers = record { pid = 0; timers = replicate max_timers new_timer; in_use = false }

pub record Tty : Type 0 where
  pub tables : Tables
  pub pairs : List PtsPair
  pub timer_tables : List ProcTimerTable
  pub memory : UserMemory
  pub now : ℕ

unfoldable pub start : UserMemory → Tty
unfolding replicate empty_table new_pair empty_timers
start memory = record {
  tables = replicate max_procs empty_table;
  pairs = replicate max_pts new_pair;
  timer_tables = replicate max_procs empty_timers;
  memory = memory;
  now = 0;
}

abbrev pub is_of : ℕ → ProcTtyTable → Bool
is_of pid t = t.in_use && (t.pid == pid)

abbrev pub table_unused : ProcTtyTable → Bool
table_unused t = not t.in_use

abbrev pub find_tty : ℕ → Tables → Option (ℕ × ProcTtyTable)
find_tty pid tbls = locate (is_of pid) tbls

abbrev pub new_table : ℕ → ProcTtyTable
new_table pid = record empty_table { in_use = true; pid = pid }

-- The table of a process, or an unused one that becomes it, with what the tables are then.
unfoldable pub get_or_create_tty : ℕ → Tables → Option (ℕ × ProcTtyTable × Tables)
unfolding empty_table
get_or_create_tty pid tbls = elim (find_tty pid tbls) [
  | some (i, t) ↦ some (i, t, tbls)
  | none ↦ elim (position table_unused tbls) [
    | none ↦ none
    | some i ↦ some (i, new_table pid, set tbls i (new_table pid))
  ]
]

abbrev tty_unused : TtyEntry → Bool
tty_unused t = not t.in_use

abbrev pub alloc : ProcTtyTable → Option ℕ
alloc t = position tty_unused t.ttys

abbrev pub fd_to_slot : ℕ → Option ℕ
fd_to_slot fd =
    if leb tty_fd_base fd && ltb fd (tty_fd_base + max_ttys) then some (fd - tty_fd_base) else none

-- The terminal behind a descriptor of a process, with its slot, its table and the table's index.
unfoldable pub tty_at : ℕ → ℕ → Tables → Option (ℕ × ℕ × ProcTtyTable × TtyEntry)
tty_at pid fd tbls = elim (fd_to_slot fd) [
  | none ↦ none
  | some slot ↦ elim (find_tty pid tbls) [
    | none ↦ none
    | some (i, t) ↦
        let e = get_or t.ttys slot empty_tty in if e.in_use then some (slot, i, t, e) else none
  ]
]

abbrev pub put_tty : ℕ → ProcTtyTable → ℕ → TtyEntry → Tty → Tty
put_tty i t slot e v = record v { tables = set v.tables i (record t { ttys = set t.ttys slot e }) }

-- The index of a pair comes from `position` in the array, or is 0, so that the default is not used.
abbrev pub pair_at : ℕ → Tty → PtsPair
pair_at pair v = get_or v.pairs pair new_pair

abbrev pub put_pair : ℕ → PtsPair → Tty → Tty
put_pair pair p v = record v { pairs = set v.pairs pair p }
