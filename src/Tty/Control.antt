-- ===== src/Tty/Control.antt =====
-- `handle_ioctl` and `handle_isatty` of servers/tty/src/lib.rs.
use cyanos.Base.{ℕ, ◌+◌, Bool, true, false, ◌||◌, none, some, ◌==◌, if◌then◌else◌}
use cyanos.Server.Memory.{load, load_word, store, store_word}
use cyanos.Server.Wire.{Reply, value, errno}
use cyanos.Tty.{Tty, TtyKind, Termios, no_tty, tty_at, put_tty}

-- The fields in memory: four words, a byte and the 19 control characters.
unfoldable store_termios : ℕ → Termios → Tty → Tty
unfolding store store_word
store_termios p t v = record v {
  memory = store (p + 17) t.c_cc (
      store_word 1 (p + 16) t.c_line (
        store_word 4 (p + 12) t.c_lflag (
          store_word 4 (p + 8) t.c_cflag
            (store_word 4 (p + 4) t.c_oflag (store_word 4 p t.c_iflag v.memory)))));
}

unfoldable load_termios : ℕ → Tty → Termios
unfolding load load_word
load_termios p v = record {
  c_iflag = load_word 4 p v.memory;
  c_oflag = load_word 4 (p + 4) v.memory;
  c_cflag = load_word 4 (p + 8) v.memory;
  c_lflag = load_word 4 (p + 12) v.memory;
  c_line = load_word 1 (p + 16) v.memory;
  c_cc = load 19 (p + 17) v.memory;
}

-- 24 rows of 80 columns.
unfoldable store_winsize : ℕ → Tty → Tty
unfolding store_word
store_winsize p v = record v {
  memory =
      store_word 2 (p + 6) 0
        (store_word 2 (p + 4) 0 (store_word 2 (p + 2) 80 (store_word 2 p 24 v.memory)));
}

abbrev tcgets : ℕ
tcgets = 21505

abbrev tcsets : ℕ
tcsets = 21506

abbrev tcsetsw : ℕ
tcsetsw = 21507

abbrev tcsetsf : ℕ
tcsetsf = 21508

abbrev tiocgwinsz : ℕ
tiocgwinsz = 21523

abbrev pub is_set : ℕ → Bool
is_set cmd = (cmd == tcsets) || ((cmd == tcsetsw) || (cmd == tcsetsf))

unfoldable pub handle_ioctl : ℕ → ℕ → ℕ → ℕ → Tty → Reply × Tty
unfolding tty_at store_termios load_termios store_winsize
handle_ioctl pid fd cmd arg_ptr v = elim (tty_at pid fd v.tables) [
  | none ↦ (errno 25, v)
  | some (slot, i, t, e) ↦
      if cmd == tcgets
      then (if arg_ptr == 0 then (errno 14, v) else (value 0, store_termios arg_ptr e.termios v))
      else if is_set cmd
      then (if arg_ptr == 0
          then (errno 14, v)
          else (value 0, put_tty i t slot (record e { termios = load_termios arg_ptr v }) v))
      else if cmd == tiocgwinsz
      then (if arg_ptr == 0 then (errno 14, v) else (value 0, store_winsize arg_ptr v))
      else (errno 25, v)
]

abbrev is_tty : TtyKind → Bool
is_tty no_tty = false
is_tty k = true

unfoldable pub handle_isatty : ℕ → ℕ → Tty → Reply
unfolding tty_at
handle_isatty pid fd v = elim (tty_at pid fd v.tables) [
  | none ↦ value 0
  | some (slot, i, t, e) ↦ if is_tty e.kind then value 1 else value 0
]
