-- ===== src/Vfs/Descriptor.antt =====
-- The handlers of servers/vfs/src/lib.rs that change the tables of descriptors: close, dup2, dup,
-- fcntl, and what fork, exec and exit do to them.
pub mod Laws
pub mod Processes
use cyanos.Base.{
  ℕ, suc, ◌%◌, ◌^◌, bit_and, bit_or, Bool, true, false, not, ◌&&◌, ◌||◌, Option, none, some, List,
  [], ◌∷◌, map, leb, ◌==◌, if◌then◌else◌, get_or, set, position,
}
use cyanos.Base.Bits.{and_not}
use cyanos.Server.Wire.{Reply, value, errno}
use cyanos.Vfs.{
  Vfs, VnodeKind, FdEntry, ProcFdTable, Tables, pipe, event_fd, timer_fd, find_tbl, get_or_create,
  at_fd, open_fd, put_fd, put_entry, empty_fd, empty_table, free_timer, is_unused, fd_unused,
  max_fds, max_u64, o_cloexec,
}
use cyanos.Vfs.Transfer.{pipe_at}

-- `rings[ring].write_open = false` or `rings[ring].read_open = false`.
abbrev pub close_end : ℕ → Bool → Vfs → Vfs
close_end ring is_write v =
    let r = pipe_at ring v in
    record v {
      pipe_rings =
          set v.pipe_rings ring
            (if is_write then record r { write_open = false } else record r { read_open = false });
    }

-- What a close does besides emptying the entry, for each kind of vnode.
abbrev pub release : VnodeKind → Vfs → Vfs
release (event_fd slot) v = record v { eventfd_counters = set v.eventfd_counters slot max_u64 }
release (timer_fd slot) v = record v { timerfd_pool = set v.timerfd_pool slot free_timer }
release k v = v

abbrev pub pipe_of : VnodeKind → Option (ℕ × Bool)
pipe_of (pipe ring is_write) = some (ring, is_write)
pipe_of k = none

-- The entry of a pipe end stays in use.
unfoldable pub handle_close : ℕ → ℕ → Vfs → Reply × Vfs
unfolding at_fd
handle_close pid fd v = elim (at_fd pid fd v.tables) [
  | none ↦ (errno 9, v)
  | some (i, t, e) ↦ elim (pipe_of e.kind) [
    | some (ring, is_write) ↦ (value 0, close_end ring is_write v)
    | none ↦ (value 0, release e.kind (put_entry i t fd empty_fd v))
  ]
]

unfoldable pub handle_dup2 : ℕ → ℕ → ℕ → Vfs → Reply × Vfs
handle_dup2 pid oldfd newfd v =
    if leb max_fds oldfd || leb max_fds newfd then (errno 9, v) else elim (find_tbl pid v.tables) [
      | none ↦ (errno 9, v)
      | some (i, t) ↦
          let e = get_or t.fds oldfd empty_fd in
          if e.in_use then (value newfd, put_entry i t newfd e v) else (errno 9, v)
    ]

-- `tbl.fds.iter().enumerate().find(|(i, f)| *i != oldfd && !f.in_use)`.
unfoldable free_fd_but : ℕ → ℕ → List FdEntry → Option ℕ
free_fd_but oldfd i [] = none
free_fd_but oldfd i (e ∷ es) =
    if not (i == oldfd) && not e.in_use then some i else free_fd_but oldfd (suc i) es

unfoldable pub handle_alloc_fd : ℕ → ℕ → Vfs → Reply × Vfs
unfolding get_or_create free_fd_but
handle_alloc_fd pid oldfd v =
    if leb max_fds oldfd then (errno 9, v) else elim (get_or_create pid v.tables) [
      | none ↦ (errno 12, v)
      | some (i, t, tbls) ↦
          let e = get_or t.fds oldfd empty_fd in
          let v' = record v { tables = tbls } in
          if e.in_use
          then elim (free_fd_but oldfd 0 t.fds) [
            | none ↦ (errno 24, v')
            | some newfd ↦ (
              value newfd,
              put_entry i t newfd (record e { flags = and_not e.flags o_cloexec }) v',
            )
          ]
          else (errno 9, v')
    ]

-- A child for which no table is unused has none, and the reply is the same.
unfoldable pub handle_fork_dup : ℕ → ℕ → Vfs → Reply × Vfs
unfolding empty_table
handle_fork_dup parent_pid child_pid v = elim (find_tbl parent_pid v.tables) [
  | none ↦ (value 0, v)
  | some (i, t) ↦ elim (position is_unused v.tables) [
    | none ↦ (value 0, v)
    | some j ↦ (
      value 0,
      record v {
        tables =
            set v.tables j (record empty_table { in_use = true; pid = child_pid; fds = t.fds });
      },
    )
  ]
]

abbrev pub has_cloexec : FdEntry → Bool
has_cloexec e = e.in_use && not (bit_and e.flags o_cloexec == 0)

abbrev pub without_cloexec : FdEntry → FdEntry
without_cloexec e = if has_cloexec e then empty_fd else e

unfoldable pub handle_exec_cloexec : ℕ → Vfs → Reply × Vfs
handle_exec_cloexec pid v = elim (find_tbl pid v.tables) [
  | none ↦ (value 0, v)
  | some (i, t) ↦
      (value 0, record v { tables = set v.tables i (record t { fds = map without_cloexec t.fds }) })
]

unfoldable pub handle_close_all : ℕ → Vfs → Reply × Vfs
unfolding empty_table
handle_close_all pid v = elim (find_tbl pid v.tables) [
  | none ↦ (value 0, v)
  | some (i, t) ↦ (value 0, record v { tables = set v.tables i empty_table })
]

-- `F_GETFD` is 1, `F_SETFD` 2, `F_GETFL` 3 and `F_SETFL` 4.
unfoldable pub handle_fcntl : ℕ → ℕ → ℕ → ℕ → Vfs → Reply × Vfs
unfolding at_fd
handle_fcntl pid fd cmd arg v = elim (at_fd pid fd v.tables) [
  | none ↦ (errno 9, v)
  | some (i, t, e) ↦
      if cmd == 1
      then (value (if bit_and e.flags o_cloexec == 0 then 0 else 1), v)
      else if cmd == 2
      then (value 0, put_entry i t fd (record e { flags = arg % 2 ^ 32 }) v)
      else if cmd == 3
      then (value e.flags, v)
      else if cmd == 4
      then (
        value 0,
        put_entry i t fd (record e { flags = bit_or (bit_and e.flags o_cloexec) (arg % 2 ^ 32) }) v,
      )
      else (value 0, v)
]
