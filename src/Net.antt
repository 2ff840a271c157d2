-- ===== src/Net.antt =====
-- servers/net/src/lib.rs: the state of the network server. The children model its handlers: `Stream`
-- (the bytes of a connection), `Bind` (socket, bind, listen), `Connect` (connect, accept,
-- socketpair), `Transfer` (send, recv and their vectored forms), `Close` (shutdown, close, exit) and
-- `Call` (the small queries and the dispatch). `Delivery` states what a connection promises.
--
-- The tables behind the server's locks are the fields of one record; a handler runs to its end before
-- the next one starts.
pub mod Stream
pub mod Bind
pub mod Connect
pub mod Transfer
pub mod Close
pub mod Call
pub mod Delivery
pub mod Reuse
mod Tests
use cyanos.Base.{
  ℕ, ◌+◌, ◌-◌, Bool, true, false, not, ◌&&◌, Option, none, some, List, ltb, leb, ◌==◌,
  if◌then◌else◌, get_or, set, replicate, locate, position,
}
use cyanos.Server.Memory.{UserMemory}
use cyanos.Server.Ring
use cyanos.Server.Ring.{ByteRing}

abbrev pub af_unix : ℕ
af_unix = 1

abbrev pub af_inet : ℕ
af_inet = 2

abbrev pub sock_fd_base : ℕ
sock_fd_base = 256

abbrev pub max_procs : ℕ
max_procs = 64

abbrev pub max_socks : ℕ
max_socks = 16

abbrev max_conns : ℕ
max_conns = 32

abbrev max_bound : ℕ
max_bound = 16

abbrev pub ring_size : ℕ
ring_size = 4096

abbrev pub path_max : ℕ
path_max = 108

abbrev max_inet_listeners : ℕ
max_inet_listeners = 16

abbrev pub inet_backlog : ℕ
inet_backlog = 8

-- `ring_ab` carries what side A writes, `ring_ba` what side B writes.
pub record UnixConn : Type 0 where
  pub in_use : Bool
  pub ring_ab : ByteRing
  pub ring_ba : ByteRing
  pub closed_a : Bool
  pub closed_b : Bool

unfoldable pub new_conn : UnixConn
unfolding Ring.new
new_conn = record {
  in_use = false;
  ring_ab = Ring.new ring_size;
  ring_ba = Ring.new ring_size;
  closed_a = false;
  closed_b = false;
}

pub record BoundPath : Type 0 where
  pub in_use : Bool
  pub path : List ℕ
  pub path_len : ℕ
  pub owner_pid : ℕ
  pub owner_sock : ℕ

unfoldable pub no_path : BoundPath
unfolding replicate
no_path = record {
  in_use = false;
  path = replicate path_max 0;
  path_len = 0;
  owner_pid = 0;
  owner_sock = 0;
}

-- The first `n_pending` connections of `pending` wait to be accepted.
pub record InetListener : Type 0 where
  pub in_use : Bool
  pub port : ℕ
  pub pid : ℕ
  pub slot : ℕ
  pub pending : List ℕ
  pub n_pending : ℕ

unfoldable pub no_listener : InetListener
unfolding replicate
no_listener = record {
  in_use = false;
  port = 0;
  pid = 0;
  slot = 0;
  pending = replicate inet_backlog 0;
  n_pending = 0;
}

-- `SockState::None` is `no_state`.
pub data SockState : Type 0 where
  no_state : SockState
  unbound : ℕ → ℕ → SockState
  listening : ℕ → SockState
  inet_listening : SockState
  connected : ℕ → Bool → SockState
  pending_accept : ℕ → SockState
  inet_pending_accept : ℕ → SockState

pub record SockEntry : Type 0 where
  pub state : SockState
  pub in_use : Bool
  pub bound_port : ℕ
  pub domain : ℕ

abbrev pub empty_sock : SockEntry
empty_sock = record { state = no_state; in_use = false; bound_port = 0; domain = 0 }

pub record ProcSockTable : Type 0 where
  pub pid : ℕ
  pub socks : List SockEntry
  pub in_use : Bool

unfoldable pub empty_table : ProcSockTable
unfolding replicate
empty_table = record { pid = 0; socks = replicate max_socks empty_sock; in_use = false }

abbrev pub Tables : Type 0
Tables = List ProcSockTable

pub record Net : Type 0 where
  pub tables : Tables
  pub conns : List UnixConn
  pub bound : List BoundPath
  pub listeners : List InetListener
  pub memory : UserMemory

unfoldable pub start : UserMemory → Net
unfolding replicate empty_table new_conn no_path no_listener
start memory = record {
  tables = replicate max_procs empty_table;
  conns = replicate max_conns new_conn;
  bound = replicate max_bound no_path;
  listeners = replicate max_inet_listeners no_listener;
  memory = memory;
}

abbrev sock_unused : SockEntry → Bool
sock_unused s = not s.in_use

abbrev pub alloc : ProcSockTable → Option ℕ
alloc t = position sock_unused t.socks

abbrev pub is_of : ℕ → ProcSockTable → Bool
is_of pid t = t.in_use && (t.pid == pid)

abbrev pub table_unused : ProcSockTable → Bool
table_unused t = not t.in_use

abbrev pub find_tbl : ℕ → Tables → Option (ℕ × ProcSockTable)
find_tbl pid tbls = locate (is_of pid) tbls

abbrev pub new_table : ℕ → ProcSockTable
new_table pid = record empty_table { in_use = true; pid = pid }

-- The table of a process, or an unused one that becomes it, with what the tables are then.
unfoldable pub get_or_create : ℕ → Tables → Option (ℕ × ProcSockTable × Tables)
unfolding empty_table
get_or_create pid tbls = elim (find_tbl pid tbls) [
  | some (i, t) ↦ some (i, t, tbls)
  | none ↦ elim (position table_unused tbls) [
    | none ↦ none
    | some i ↦ some (i, new_table pid, set tbls i (new_table pid))
  ]
]

abbrev pub fd_to_slot : ℕ → Option ℕ
fd_to_slot fd =
    if leb sock_fd_base fd && ltb fd (sock_fd_base + max_socks)
    then some (fd - sock_fd_base)
    else none

abbrev pub put_sock : ℕ → SockEntry → ProcSockTable → ProcSockTable
put_sock slot s t = record t { socks = set t.socks slot s }

-- The socket in a slot of a process, with its table and the table's index; none is `EBADF`.
unfoldable pub sock_at : ℕ → ℕ → Tables → Option (ℕ × ProcSockTable × SockEntry)
sock_at pid slot tbls = elim (find_tbl pid tbls) [
  | none ↦ none
  | some (i, t) ↦
      if leb max_socks slot
      then none
      else let s = get_or t.socks slot empty_sock in if s.in_use then some (i, t, s) else none
]

-- `tbl.socks[slot] = s` in the table with index `i`.
abbrev pub write_sock : ℕ → ProcSockTable → ℕ → SockEntry → Net → Net
write_sock i t slot s v = record v { tables = set v.tables i (put_sock slot s t) }

-- A change of the socket in a slot, if there is one in use.
unfoldable pub change_sock : ℕ → ℕ → (SockEntry → SockEntry) → Net → Net
unfolding sock_at
change_sock pid slot f v = elim (sock_at pid slot v.tables) [
  | none ↦ v
  | some (i, t, s) ↦ write_sock i t slot (f s) v
]

abbrev pub conn_unused : UnixConn → Bool
conn_unused c = not c.in_use

-- A connection of its own for a new pair of sockets.
unfoldable pub open_conn : Net → Option (ℕ × Net)
unfolding new_conn
open_conn v = elim (position conn_unused v.conns) [
  | none ↦ none
  | some idx ↦ some (idx, record v { conns = set v.conns idx (record new_conn { in_use = true }) })
]

-- A connection index comes from `position` in the array, so that the default is not used.
abbrev pub conn_at : ℕ → Net → UnixConn
conn_at idx v = get_or v.conns idx new_conn

abbrev pub put_conn : ℕ → UnixConn → Net → Net
put_conn idx c v = record v { conns = set v.conns idx c }
