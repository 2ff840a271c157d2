-- ===== src/Net/Bind.antt =====
-- `handle_socket`, `handle_bind` and `handle_listen` of servers/net/src/lib.rs.
use cyanos.Base.{
  ℕ, ◌+◌, ◌-◌, ◌*◌, ◌%◌, Bool, true, not, ◌&&◌, ◌||◌, none, some, List, ltb, ◌==◌, if◌then◌else◌,
  length, set, position, take, overwrite,
}
use cyanos.Base.Text.{same_bytes}
use cyanos.Server.Memory.{load, load_word}
use cyanos.Server.Wire.{Reply, value, errno}
use cyanos.Net.{
  Net, BoundPath, InetListener, unbound, listening, inet_listening, af_unix, af_inet, sock_fd_base,
  path_max, alloc, get_or_create, fd_to_slot, sock_at, write_sock, change_sock, no_path,
  no_listener,
}

unfoldable pub handle_socket : ℕ → ℕ → ℕ → Net → Reply × Net
unfolding get_or_create
handle_socket pid domain sock_type v =
    if not ((domain == af_unix) || (domain == af_inet))
    then (errno 97, v)
    else elim (get_or_create pid v.tables) [
      | none ↦ (errno 12, v)
      | some (i, t, tbls) ↦
          let v' = record v { tables = tbls } in
          elim (alloc t) [
            | none ↦ (errno 24, v')
            | some slot ↦ (
              value (slot + sock_fd_base),
              write_sock i t slot
                  (record {
                    state = unbound domain (sock_type % 256);
                    in_use = true;
                    bound_port = 0;
                    domain = domain;
                  })
                  v',
            )
          ]
    ]

-- `u16::from_be` of the two bytes at an address.
abbrev pub load_port : ℕ → Net → ℕ
load_port p v = v.memory p * 256 + v.memory (p + 1)

abbrev pub listens_on : ℕ → InetListener → Bool
listens_on port l = l.in_use && (l.port == port)

-- `bp.in_use && bp.path_len == path_len && bp.path[..path_len] == path`.
abbrev pub is_bound_to : List ℕ → BoundPath → Bool
is_bound_to path b =
    b.in_use && ((b.path_len == length path) && same_bytes (take (length path) b.path) path)

abbrev path_unused : BoundPath → Bool
path_unused b = not b.in_use

-- The path is kept although the socket may not exist.
abbrev bind_path : ℕ → ℕ → List ℕ → ℕ → Net → Net
bind_path pid slot path idx v =
    let b : BoundPath = record {
      in_use = true;
      path = overwrite 0 path no_path.path;
      path_len = length path;
      owner_pid = pid;
      owner_sock = slot;
    } in
    change_sock pid slot (λ s. record s { state = listening idx })
      (record v { bound = set v.bound idx b })

unfoldable bind_inet : ℕ → ℕ → ℕ → ℕ → Net → Reply × Net
unfolding change_sock
bind_inet pid slot addr_ptr addrlen v =
    let port = load_port (addr_ptr + 2) v in
    if ltb addrlen 8 then (errno 22, v) else elim (position (listens_on port) v.listeners) [
      | some i ↦ (errno 98, v)
      | none ↦ (value 0, change_sock pid slot (λ s. record s { bound_port = port }) v)
    ]

unfoldable bind_unix : ℕ → ℕ → ℕ → ℕ → Net → Reply × Net
unfolding change_sock load no_path same_bytes
bind_unix pid slot addr_ptr addrlen v =
    if ltb addrlen 3 || ltb (2 + path_max) addrlen
    then (errno 22, v)
    else (let path = load (addrlen - 2) (addr_ptr + 2) v.memory in
        elim (position (is_bound_to path) v.bound) [
          | some i ↦ (errno 98, v)
          | none ↦ elim (position path_unused v.bound) [
            | none ↦ (errno 12, v)
            | some idx ↦ (value 0, bind_path pid slot path idx v)
          ]
        ])

unfoldable pub handle_bind : ℕ → ℕ → ℕ → ℕ → Net → Reply × Net
unfolding bind_inet bind_unix load_word
handle_bind pid fd addr_ptr addrlen v = elim (fd_to_slot fd) [
  | none ↦ (errno 9, v)
  | some slot ↦
      if ltb addrlen 2
      then (errno 22, v)
      else if load_word 2 addr_ptr v.memory == af_inet
      then bind_inet pid slot addr_ptr addrlen v
      else bind_unix pid slot addr_ptr addrlen v
]

abbrev listener_unused : InetListener → Bool
listener_unused l = not l.in_use

-- The state of the socket changes before the search for a listener.
unfoldable pub handle_listen : ℕ → ℕ → Net → Reply × Net
unfolding sock_at no_listener
handle_listen pid fd v = elim (fd_to_slot fd) [
  | none ↦ (errno 9, v)
  | some slot ↦ elim (sock_at pid slot v.tables) [
    | none ↦ (errno 9, v)
    | some (i, t, s) ↦
        if not (s.domain == af_inet)
        then (value 0, v)
        else if s.bound_port == 0
        then (errno 22, v)
        else (let v' = write_sock i t slot (record s { state = inet_listening }) v in
            elim (position listener_unused v'.listeners) [
              | none ↦ (errno 12, v')
              | some idx ↦ (
                value 0,
                record v' {
                  listeners = set v'.listeners idx (record no_listener {
                    in_use = true;
                    port = s.bound_port;
                    pid = pid;
                    slot = slot;
                  });
                },
              )
            ])
  ]
]
