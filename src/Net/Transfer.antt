-- ===== src/Net/Transfer.antt =====
-- `handle_send`, `handle_recv` and their vectored forms of servers/net/src/lib.rs.
use cyanos.Base.{
  ℕ, zero, suc, ◌+◌, min, Bool, true, false, Option, none, some, ◌==◌, if◌then◌else◌, length,
}
use cyanos.Server.Memory.{load, store, load_word}
use cyanos.Server.Ring.{ByteRing}
use cyanos.Server.Wire.{Reply, value, errno}
use cyanos.Net.{Net, SockState, UnixConn, connected, fd_to_slot, sock_at, conn_at, put_conn}
use cyanos.Net.Stream
use cyanos.Net.Stream.{room}

abbrev pub conn_of : SockState → Option (ℕ × Bool)
conn_of (connected conn_idx is_a) = some (conn_idx, is_a)
conn_of s = none

-- The ring that a side writes, and the one that it reads.
abbrev pub out_ring : Bool → UnixConn → ByteRing
out_ring is_a c = if is_a then c.ring_ab else c.ring_ba

abbrev pub in_ring : Bool → UnixConn → ByteRing
in_ring is_a c = if is_a then c.ring_ba else c.ring_ab

abbrev pub put_out : Bool → ByteRing → UnixConn → UnixConn
put_out true r c = record c { ring_ab = r }
put_out false r c = record c { ring_ba = r }

abbrev pub put_in : Bool → ByteRing → UnixConn → UnixConn
put_in true r c = record c { ring_ba = r }
put_in false r c = record c { ring_ab = r }

unfoldable pub send_on : ℕ → Bool → ℕ → ℕ → Net → Reply × Net
unfolding Stream.write load
send_on idx is_a buf len v =
    let c = conn_at idx v in
    let r = out_ring is_a c in
    let n = room len r in
    if c.in_use
    then (value n, put_conn idx (put_out is_a (Stream.write (load n buf v.memory) r) c) v)
    else (errno 32, v)

unfoldable pub handle_send : ℕ → ℕ → ℕ → ℕ → Net → Reply × Net
unfolding sock_at send_on
handle_send pid fd buf len v = elim (fd_to_slot fd) [
  | none ↦ (errno 9, v)
  | some slot ↦ elim (sock_at pid slot v.tables) [
    | none ↦ (errno 9, v)
    | some (i, t, s) ↦ elim (conn_of s.state) [
      | none ↦ (errno 32, v)
      | some (idx, is_a) ↦ send_on idx is_a buf len v
    ]
  ]
]

unfoldable pub recv_on : ℕ → Bool → ℕ → ℕ → Net → Reply × Net
unfolding Stream.read store
recv_on idx is_a buf len v =
    let c = conn_at idx v in
    let (bs, r) = Stream.read len (in_ring is_a c) in
    if c.in_use
    then (
      value (length bs),
      put_conn idx (put_in is_a r c) (record v { memory = store buf bs v.memory }),
    )
    else (value 0, v)

unfoldable pub handle_recv : ℕ → ℕ → ℕ → ℕ → Net → Reply × Net
unfolding sock_at recv_on
handle_recv pid fd buf len v = elim (fd_to_slot fd) [
  | none ↦ (errno 9, v)
  | some slot ↦ elim (sock_at pid slot v.tables) [
    | none ↦ (errno 9, v)
    | some (i, t, s) ↦ elim (conn_of s.state) [
      | none ↦ (errno 9, v)
      | some (idx, is_a) ↦ recv_on idx is_a buf len v
    ]
  ]
]

-- The loop over the buffers of a message: an error ends it, and counts only if nothing has been
-- transferred.
unfoldable each_iov : (ℕ → ℕ → Net → Reply × Net) → ℕ → ℕ → ℕ → Net → Reply × Net
unfolding load_word
each_iov op zero iov total v = (value total, v)
each_iov op (suc n) iov total v =
    let (r, v') = op (load_word 8 iov v.memory) (load_word 8 (iov + 8) v.memory) v in
    elim r [
      | errno e ↦ if total == 0 then (errno e, v') else (value total, v')
      | value k ↦ each_iov op n (iov + 16) (total + k) v'
    ]

-- The `msghdr` names the buffers and their number, of which 16 count.
abbrev with_iov : (ℕ → ℕ → Net → Reply × Net) → ℕ → Net → Reply × Net
with_iov op msghdr v =
    if msghdr == 0
    then (errno 14, v)
    else each_iov op (min (load_word 8 (msghdr + 24) v.memory) 16)
        (load_word 8 (msghdr + 16) v.memory) 0 v

unfoldable pub handle_sendmsg : ℕ → ℕ → ℕ → Net → Reply × Net
unfolding each_iov handle_send load_word
handle_sendmsg pid fd msghdr v = with_iov (handle_send pid fd) msghdr v

unfoldable pub handle_recvmsg : ℕ → ℕ → ℕ → Net → Reply × Net
unfolding each_iov handle_recv load_word
handle_recvmsg pid fd msghdr v = with_iov (handle_recv pid fd) msghdr v
