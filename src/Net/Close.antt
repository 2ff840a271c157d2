-- ===== src/Net/Close.antt =====
-- `handle_shutdown`, `handle_close` and `handle_close_all` of servers/net/src/lib.rs.
use cyanos.Base.{
  ℕ, Bool, true, false, not, ◌&&◌, none, some, List, [], ◌∷◌, map, ◌==◌, if◌then◌else◌, set,
  position,
}
use cyanos.Server.Wire.{Reply, value, errno}
use cyanos.Net.{
  Net, SockState, SockEntry, UnixConn, InetListener, inet_listening, find_tbl, fd_to_slot, sock_at,
  write_sock, conn_at, put_conn, empty_sock, empty_table, no_listener,
}
use cyanos.Net.Transfer.{conn_of}

-- A side is closed, and with the other one the connection is given back.
abbrev close_side : Bool → UnixConn → UnixConn
close_side is_a c =
    let c' = if is_a then record c { closed_a = true } else record c { closed_b = true } in
    if c'.closed_a && c'.closed_b then record c' { in_use = false } else c'

abbrev shut_conn : SockState → Net → Net
shut_conn s v = elim (conn_of s) [
  | none ↦ v
  | some (idx, is_a) ↦ put_conn idx (close_side is_a (conn_at idx v)) v
]

unfoldable pub handle_shutdown : ℕ → ℕ → Net → Reply × Net
unfolding sock_at
handle_shutdown pid fd v = elim (fd_to_slot fd) [
  | none ↦ (errno 9, v)
  | some slot ↦ elim (sock_at pid slot v.tables) [
    | none ↦ (value 0, v)
    | some (i, t, s) ↦ (value 0, write_sock i t slot empty_sock (shut_conn s.state v))
  ]
]

-- `conns[conn_idx].in_use = false`, whether or not the other side is still connected.
abbrev pub release_conn : ℕ → Net → Net
release_conn idx v = put_conn idx (record (conn_at idx v) { in_use = false }) v

abbrev is_inet_listening : SockState → Bool
is_inet_listening inet_listening = true
is_inet_listening s = false

abbrev listens_for : ℕ → ℕ → InetListener → Bool
listens_for port pid l = l.in_use && ((l.port == port) && (l.pid == pid))

abbrev release_listener : ℕ → ℕ → Net → Net
release_listener port pid v = elim (position (listens_for port pid) v.listeners) [
  | none ↦ v
  | some i ↦ record v { listeners = set v.listeners i no_listener }
]

abbrev pub release_sock : ℕ → SockEntry → Net → Net
release_sock pid s v = elim (conn_of s.state) [
  | some (idx, is_a) ↦ release_conn idx v
  | none ↦
      if is_inet_listening s.state && not (s.bound_port == 0)
      then release_listener s.bound_port pid v
      else v
]

unfoldable pub handle_close : ℕ → ℕ → Net → Reply × Net
unfolding sock_at no_listener
handle_close pid sockfd v = elim (fd_to_slot sockfd) [
  | none ↦ (errno 9, v)
  | some slot ↦ elim (sock_at pid slot v.tables) [
    | none ↦ (errno 9, v)
    | some (i, t, s) ↦ (value 0, release_sock pid s (write_sock i t slot empty_sock v))
  ]
]

-- The connections of all sockets of a table.
unfoldable release_conns : List SockEntry → Net → Net
release_conns [] v = v
release_conns (s ∷ ss) v =
    release_conns ss (elim (conn_of s.state) [ none ↦ v | some (idx, is_a) ↦ release_conn idx v ])

abbrev without_owner : ℕ → InetListener → InetListener
without_owner pid l = if l.in_use && (l.pid == pid) then no_listener else l

unfoldable pub handle_close_all : ℕ → Net → Reply × Net
unfolding release_conns no_listener empty_table
handle_close_all pid v = elim (find_tbl pid v.tables) [
  | none ↦ (value 0, v)
  | some (i, t) ↦
      let v' = release_conns t.socks v in
      (
        value 0,
        record v' {
          tables = set v.tables i empty_table;
          listeners = map (without_owner pid) v.listeners;
        },
      )
]
