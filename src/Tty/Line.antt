-- ===== src/Tty/Line.antt =====
-- `handle_open`, `handle_read`, `handle_write` and `handle_close` of servers/tty/src/lib.rs.
pub mod Session
use cyanos.Base.{
  ℕ, ◌+◌, ◌/◌, min, ◌⊎◌, inl, inr, Bool, true, false, not, Option, none, some, ◌==◌, if◌then◌else◌,
  length, position,
}
use cyanos.Server.Memory.{load, store}
use cyanos.Server.Ring
use cyanos.Server.Ring.{ByteRing}
use cyanos.Server.Wire.{Reply, value, errno}
use cyanos.Tty.{
  Tty, TtyKind, TtyEntry, ProcTtyTable, PtsPair, no_tty, console, pts_master, pts_slave,
  tty_fd_base, tty_buf, default_console, empty_tty, get_or_create_tty, alloc, tty_at, put_tty,
  pair_at, put_pair, find_tty, fd_to_slot,
}

abbrev pub pair_unused : PtsPair → Bool
pair_unused p = not p.in_use

-- What an open finds: the kind of terminal, with a pair for a master, or an error number. The rings
-- of a pair are taken as they are.
unfoldable pub kind_for : ℕ → Tty → (TtyKind × Tty) ⊎ ℕ
kind_for kind_raw v =
    if kind_raw == 0
    then inl (console, v)
    else if kind_raw == 1
    then elim (position pair_unused v.pairs) [
      | none ↦ inr 24
      | some i ↦ inl (pts_master i, put_pair i (record (pair_at i v) { in_use = true }) v)
    ]
    else if kind_raw == 2
    then inl (pts_slave (kind_raw / 256), v)
    else inr 22

abbrev new_tty : TtyKind → TtyEntry
new_tty kind = record { kind = kind; in_use = true; termios = default_console }

-- A refusal after the choice of the pair leaves it in use.
unfoldable pub handle_open : ℕ → ℕ → Tty → Reply × Tty
unfolding kind_for get_or_create_tty
handle_open pid kind_raw v = elim (kind_for kind_raw v) [
  | inr e ↦ (errno e, v)
  | inl (kind, v') ↦ elim (get_or_create_tty pid v'.tables) [
    | none ↦ (errno 12, v')
    | some (i, t, tbls) ↦
        let v'' = record v' { tables = tbls } in
        elim (alloc t) [
          | none ↦ (errno 24, v'')
          | some slot ↦ (value (slot + tty_fd_base), put_tty i t slot (new_tty kind) v'')
        ]
  ]
]

-- The pair of a terminal, and whether it is the master.
abbrev pub pts_of : TtyKind → Option (ℕ × Bool)
pts_of (pts_master pair) = some (pair, true)
pts_of (pts_slave pair) = some (pair, false)
pts_of k = none

abbrev pub in_ring : Bool → PtsPair → ByteRing
in_ring is_master p = if is_master then p.s_to_m else p.m_to_s

abbrev pub out_ring : Bool → PtsPair → ByteRing
out_ring is_master p = if is_master then p.m_to_s else p.s_to_m

abbrev pub put_in : Bool → ByteRing → PtsPair → PtsPair
put_in true r p = record p { s_to_m = r }
put_in false r p = record p { m_to_s = r }

abbrev pub put_out : Bool → ByteRing → PtsPair → PtsPair
put_out true r p = record p { m_to_s = r }
put_out false r p = record p { s_to_m = r }

unfoldable pub read_pts : ℕ → Bool → ℕ → ℕ → Tty → Reply × Tty
unfolding store
read_pts pair is_master buf count v =
    let p = pair_at pair v in
    let (bs, r) = Ring.get_some tty_buf (min count tty_buf) (in_ring is_master p) in
    (
      value (length bs),
      put_pair pair (put_in is_master r p) (record v { memory = store buf bs v.memory }),
    )

abbrev is_console : TtyKind → Bool
is_console console = true
is_console k = false

unfoldable pub handle_read : ℕ → ℕ → ℕ → ℕ → Tty → Reply × Tty
unfolding tty_at read_pts
handle_read pid fd buf count v = elim (tty_at pid fd v.tables) [
  | none ↦ (errno 9, v)
  | some (slot, i, t, e) ↦ elim (pts_of e.kind) [
    | some (pair, is_master) ↦ read_pts pair is_master buf count v
    | none ↦ if is_console e.kind then (value 0, v) else (errno 9, v)
  ]
]

unfoldable pub write_pts : ℕ → Bool → ℕ → ℕ → Tty → Reply × Tty
unfolding load
write_pts pair is_master buf count v =
    let p = pair_at pair v in
    let (n, r) = Ring.put_all tty_buf (out_ring is_master p) (load count buf v.memory) in
    (value n, put_pair pair (put_out is_master r p) v)

-- The console takes all bytes; the caller has sent them to the serial line.
unfoldable pub handle_write : ℕ → ℕ → ℕ → ℕ → Tty → Reply × Tty
unfolding tty_at write_pts
handle_write pid fd buf count v = elim (tty_at pid fd v.tables) [
  | none ↦ (errno 9, v)
  | some (slot, i, t, e) ↦ elim (pts_of e.kind) [
    | some (pair, is_master) ↦ write_pts pair is_master buf count v
    | none ↦ if is_console e.kind then (value count, v) else (errno 9, v)
  ]
]

abbrev pub master_of : TtyKind → Option ℕ
master_of (pts_master pair) = some pair
master_of k = none

-- The entry of a master stays in use.
unfoldable pub handle_close : ℕ → ℕ → Tty → Reply × Tty
unfolding tty_at
handle_close pid fd v = elim (fd_to_slot fd) [
  | none ↦ (errno 9, v)
  | some slot ↦ elim (tty_at pid fd v.tables) [
    | none ↦ (value 0, v)
    | some (slot', i, t, e) ↦ elim (master_of e.kind) [
      | some pair ↦ (value 0, put_pair pair (record (pair_at pair v) { in_use = false }) v)
      | none ↦ (value 0, put_tty i t slot' empty_tty v)
    ]
  ]
]
