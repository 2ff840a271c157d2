-- ===== src/Net/Connect.antt =====
-- `handle_connect`, `handle_accept` and `handle_socketpair` of servers/net/src/lib.rs.
use cyanos.Base.{
  ℕ, ◌+◌, ◌-◌, ◌⊎◌, inl, inr, Bool, true, false, not, ◌&&◌, ◌||◌, Option, none, some, List, [], ◌∷◌,
  ltb, leb, ◌==◌, if◌then◌else◌, get_or, set, replicate, drop, locate, position, take, overwrite,
}
use cyanos.Base.Text.{same_bytes}
use cyanos.Server.Memory.{load, load_word, store, store_word}
use cyanos.Server.Wire.{Reply, value, errno}
use cyanos.Net.{
  Net, SockState, SockEntry, Tables, InetListener, listening, inet_listening, connected,
  pending_accept, inet_pending_accept, af_unix, af_inet, sock_fd_base, path_max, alloc,
  get_or_create, fd_to_slot, put_sock, sock_at, change_sock, open_conn, empty_sock, inet_backlog,
}
use cyanos.Net.Bind.{load_port, listens_on, is_bound_to}

-- A listener takes a connection at the end of its queue; none says that the queue is full.
unfoldable pub enqueue : ℕ → InetListener → Option InetListener
enqueue conn_idx l =
    if leb inet_backlog l.n_pending
    then none
    else some
        (record l { pending = set l.pending l.n_pending conn_idx; n_pending = l.n_pending + 1 })

abbrev await_accept : SockState → SockEntry → SockEntry
await_accept state s = record s { state = state }

-- A connection that the queue has no room for stays in use.
unfoldable connect_inet : ℕ → ℕ → ℕ → ℕ → Net → Reply × Net
unfolding load_word open_conn enqueue change_sock
connect_inet pid slot addr_ptr addrlen v =
    let port = load_port (addr_ptr + 2) v in
    let sin_addr = load_word 4 (addr_ptr + 4) v.memory in
    if ltb addrlen 8
    then (errno 22, v)
    else if not (sin_addr == 16777343) && not (sin_addr == 0)
    then (errno 111, v)
    else elim (locate (listens_on port) v.listeners) [
      | none ↦ (errno 111, v)
      | some (i, l) ↦ elim (open_conn v) [
        | none ↦ (errno 12, v)
        | some (conn_idx, v') ↦ elim (enqueue conn_idx l) [
          | none ↦ (errno 111, v')
          | some l' ↦ (
            value 0,
            change_sock pid slot (await_accept (inet_pending_accept conn_idx))
                (record v' { listeners = set v'.listeners i l' }),
          )
        ]
      ]
    ]

-- The listener at the path is not told.
unfoldable connect_unix : ℕ → ℕ → ℕ → ℕ → Net → Reply × Net
unfolding load open_conn change_sock same_bytes
connect_unix pid slot addr_ptr addrlen v =
    if ltb addrlen 3 || ltb (2 + path_max) addrlen
    then (errno 22, v)
    else elim (position (is_bound_to (load (addrlen - 2) (addr_ptr + 2) v.memory)) v.bound) [
      | none ↦ (errno 111, v)
      | some i ↦ elim (open_conn v) [
        | none ↦ (errno 12, v)
        | some (conn_idx, v') ↦
            (value 0, change_sock pid slot (await_accept (pending_accept conn_idx)) v')
      ]
    ]

unfoldable pub handle_connect : ℕ → ℕ → ℕ → ℕ → Net → Reply × Net
unfolding load_word connect_inet connect_unix
handle_connect pid fd addr_ptr addrlen v = elim (fd_to_slot fd) [
  | none ↦ (errno 9, v)
  | some slot ↦
      if ltb addrlen 2
      then (errno 22, v)
      else if load_word 2 addr_ptr v.memory == af_inet
      then connect_inet pid slot addr_ptr addrlen v
      else connect_unix pid slot addr_ptr addrlen v
]

abbrev pending_conn : SockState → Option ℕ
pending_conn (pending_accept conn_idx) = some conn_idx
pending_conn s = none

unfoldable first_pending_in : List SockEntry → Option ℕ
first_pending_in [] = none
first_pending_in (s ∷ ss) = elim (pending_conn s.state) [
  | some c ↦ some c
  | none ↦ first_pending_in ss
]

-- The first connection of any process that waits, whichever path it connected to.
unfoldable first_pending : Tables → Option ℕ
unfolding first_pending_in
first_pending [] = none
first_pending (t ∷ ts) =
    let rest = first_pending ts in
    if t.in_use then elim (first_pending_in t.socks) [ some c ↦ some c | none ↦ rest ] else rest

-- The queue of a listener without its first connection.
unfoldable pub dequeue : InetListener → Option (ℕ × InetListener)
dequeue l =
    if l.n_pending == 0
    then none
    else some (
      get_or l.pending 0 0,
      record l {
        pending = overwrite 0 (take (l.n_pending - 1) (drop 1 l.pending)) l.pending;
        n_pending = l.n_pending - 1;
      },
    )

abbrev waits_for : Bool → ℕ → SockState → Bool
waits_for true c (inet_pending_accept d) = c == d
waits_for false c (pending_accept d) = c == d
waits_for is_inet c s = false

-- The first socket of a table that waits for the connection becomes its side A.
unfoldable connect_first : Bool → ℕ → List SockEntry → List SockEntry
connect_first is_inet c [] = []
connect_first is_inet c (s ∷ ss) =
    let rest = connect_first is_inet c ss in
    if waits_for is_inet c s.state then record s { state = connected c true } ∷ ss else s ∷ rest

unfoldable connect_waiting : Bool → ℕ → Tables → Tables
unfolding connect_first
connect_waiting is_inet c [] = []
connect_waiting is_inet c (t ∷ ts) =
    (if t.in_use then record t { socks = connect_first is_inet c t.socks } else t)
    ∷ connect_waiting is_inet c ts

abbrev store_peer : Bool → ℕ → Net → Net
store_peer is_inet p v =
    if p == 0
    then v
    else if is_inet
    then record v {
      memory =
          store_word 4 (p + 4) 16777343
            (store_word 2 p af_inet (store p (replicate 16 0) v.memory));
    }
    else record v { memory = store p (replicate 2 0) v.memory }

-- The connection that an accept takes, and whether it is of the internet family.
unfoldable take_pending : SockEntry → Net → (ℕ × Bool × Net) ⊎ ℕ
unfolding first_pending dequeue
take_pending s v = elim s.state [
  | inet_listening ↦ elim (locate (listens_on s.bound_port) v.listeners) [
    | none ↦ inr 11
    | some (i, l) ↦ elim (dequeue l) [
      | none ↦ inr 11
      | some (c, l') ↦ inl (c, true, record v { listeners = set v.listeners i l' })
    ]
  ]
  | listening bound_idx ↦ elim (first_pending v.tables) [
    | none ↦ inr 11
    | some c ↦ inl (c, false, v)
  ]
  | _ ↦ inr 22
]

abbrev pub side : Bool → ℕ → ℕ → SockEntry
side is_a domain c = record {
  state = connected c is_a;
  in_use = true;
  bound_port = 0;
  domain = domain;
}

unfoldable accept_conn : ℕ → ℕ → ℕ → Bool → Net → Reply × Net
unfolding get_or_create connect_waiting store store_word replicate
accept_conn pid addr_ptr c is_inet v = elim (get_or_create pid v.tables) [
  | none ↦ (errno 12, v)
  | some (i, t, tbls) ↦ elim (alloc t) [
    | none ↦ (errno 24, record v { tables = tbls })
    | some slot ↦
        let domain = if is_inet then af_inet else af_unix in
        let tbls' = set tbls i (put_sock slot (side false domain c) t) in
        (
          value (slot + sock_fd_base),
          store_peer is_inet addr_ptr (record v { tables = connect_waiting is_inet c tbls' }),
        )
  ]
]

unfoldable pub handle_accept : ℕ → ℕ → ℕ → Net → Reply × Net
unfolding sock_at take_pending accept_conn
handle_accept pid fd addr_ptr v = elim (fd_to_slot fd) [
  | none ↦ (errno 9, v)
  | some slot ↦ elim (sock_at pid slot v.tables) [
    | none ↦ (errno 9, v)
    | some (i, t, s) ↦ elim (take_pending s v) [
      | inr e ↦ (errno e, v)
      | inl (c, is_inet, v') ↦ accept_conn pid addr_ptr c is_inet v'
    ]
  ]
]

-- A refusal after the choice of the connection leaves it in use.
unfoldable pub handle_socketpair : ℕ → ℕ → ℕ → Net → Reply × Net
unfolding open_conn get_or_create store_word
handle_socketpair pid domain sv_ptr v =
    if not (domain == af_unix) then (errno 97, v) else elim (open_conn v) [
      | none ↦ (errno 12, v)
      | some (c, v') ↦ elim (get_or_create pid v'.tables) [
        | none ↦ (errno 12, v')
        | some (i, t, tbls) ↦ elim (alloc t) [
          | none ↦ (errno 24, record v' { tables = tbls })
          | some a ↦
              let t' = put_sock a (side true af_unix c) t in
              elim (alloc t') [
                | none ↦ (errno 24, record v' { tables = set tbls i (put_sock a empty_sock t') })
                | some b ↦ (
                  value 0,
                  record v' {
                    tables = set tbls i (put_sock b (side false af_unix c) t');
                    memory =
                        store_word 4 (sv_ptr + 4) (b + sock_fd_base)
                          (store_word 4 sv_ptr (a + sock_fd_base) v'.memory);
                  },
                )
              ]
        ]
      ]
    ]
