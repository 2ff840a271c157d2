-- ===== src/Net/Delivery.antt =====
-- What a connection of servers/net/src/lib.rs promises: each direction is a bounded queue of bytes.
use cyanos.Base.{
  ℕ, ◌-◌, ◌<◌, min, ◌≡◌, refl, sym, ap, subst, ◌∙◌, Bool, true, false, not, some, List, ◌++◌, arith,
  length, drop, length-set, get_or-set_self, take, length-take, ◌≤◌, ap₂, [], take_all,
}
use cyanos.Server.Memory.{load, store, length-load, load-store}
use cyanos.Server.Ring.{ByteRing}
use cyanos.Server.Ring.Refine.{Holds}
use cyanos.Server.Wire.{Reply, value}
use cyanos.Net.{
  Net, SockEntry, ProcSockTable, UnixConn, sock_at, fd_to_slot, conn_at, put_conn, ring_size,
  new_conn,
}
use cyanos.Net.Stream
use cyanos.Net.Stream.{room, write-Holds, read-Holds}
use cyanos.Net.Transfer.{
  handle_send, handle_recv, send_on, recv_on, out_ring, in_ring, put_out, put_in, conn_of,
}

-- The connection is in use; `out` waits to be read by the peer of the side, and `into` by the side.
pub record Linked (idx : ℕ) (is_a : Bool) (v : Net) (out into : List ℕ) : Type 0 where
  pub in_range : idx < length v.conns
  pub in_use : (conn_at idx v).in_use ≡ true
  pub sends : Holds ring_size (out_ring is_a (conn_at idx v)) out
  pub receives : Holds ring_size (in_ring is_a (conn_at idx v)) into

-- A socket of a process is a side of the connection.
abbrev pub IsSide : ℕ → ℕ → ℕ → Bool → Net → Type 0
IsSide pid fd idx is_a v =
    (slot i : ℕ) × (t : ProcSockTable) × (s : SockEntry) × (fd_to_slot fd ≡ some slot)
    × (sock_at pid slot v.tables ≡ some (i, t, s))
    × (conn_of s.state ≡ some (idx, is_a))

-- What a send of `len` bytes leaves: `k` of them went in.
pub record Sent (idx : ℕ) (is_a : Bool) (out into : List ℕ) (buf len : ℕ) (v : Net)
    (r : Reply × Net) : Type 0 where
  pub reply : r.0 ≡ value (min len (ring_size - length out))
  pub linked :
      Linked idx is_a r.1 (out ++ load (min len (ring_size - length out)) buf v.memory) into
  pub tables : r.1.tables ≡ v.tables
  pub memory : r.1.memory ≡ v.memory

record Received (idx : ℕ) (is_a : Bool) (out into : List ℕ) (buf len : ℕ) (v : Net)
    (r : Reply × Net) : Type 0 where
  pub reply : r.0 ≡ value (min len (length into))
  pub linked : Linked idx is_a r.1 out (drop (min len (length into)) into)
  pub tables : r.1.tables ≡ v.tables
  pub memory : r.1.memory ≡ store buf (take (min len (length into)) into) v.memory

-- The other side sees the same queues the other way round.
Linked-flip :
    {idx : ℕ} {is_a : Bool} {v : Net} {out into : List ℕ}
    → Linked idx is_a v out into
    → Linked idx (not is_a) v into out
Linked-flip {is_a = true} l = record {
  in_range = l.in_range;
  in_use = l.in_use;
  sends = l.receives;
  receives = l.sends;
}
Linked-flip {is_a = false} l = record {
  in_range = l.in_range;
  in_use = l.in_use;
  sends = l.receives;
  receives = l.sends;
}

put_conn-Linked :
    (idx : ℕ) (is_a : Bool) (c : UnixConn) (v : Net) (out into : List ℕ)
    → idx < length v.conns
    → c.in_use ≡ true
    → Holds ring_size (out_ring is_a c) out
    → Holds ring_size (in_ring is_a c) into
    → Linked idx is_a (put_conn idx c v) out into
put_conn-Linked idx is_a c v out into h used s r =
    let here : conn_at idx (put_conn idx c v) ≡ c = get_or-set_self v.conns idx c new_conn h in
    record {
      in_range = omega (arith, h, length-set v.conns idx c);
      in_use = ap (λ d. d.in_use) here ∙ used;
      sends = subst (λ d. Holds ring_size (out_ring is_a d) out) (sym here) s;
      receives = subst (λ d. Holds ring_size (in_ring is_a d) into) (sym here) r;
    }

out-put_out : (is_a : Bool) (r : ByteRing) (c : UnixConn) → out_ring is_a (put_out is_a r c) ≡ r
out-put_out true r c = refl
out-put_out false r c = refl

in-put_out :
    (is_a : Bool) (r : ByteRing) (c : UnixConn) → in_ring is_a (put_out is_a r c) ≡ in_ring is_a c
in-put_out true r c = refl
in-put_out false r c = refl

in-put_in : (is_a : Bool) (r : ByteRing) (c : UnixConn) → in_ring is_a (put_in is_a r c) ≡ r
in-put_in true r c = refl
in-put_in false r c = refl

out-put_in :
    (is_a : Bool) (r : ByteRing) (c : UnixConn) → out_ring is_a (put_in is_a r c) ≡ out_ring is_a c
out-put_in true r c = refl
out-put_in false r c = refl

put_out-in_use : (is_a : Bool) (r : ByteRing) (c : UnixConn) → (put_out is_a r c).in_use ≡ c.in_use
put_out-in_use true r c = refl
put_out-in_use false r c = refl

put_in-in_use : (is_a : Bool) (r : ByteRing) (c : UnixConn) → (put_in is_a r c).in_use ≡ c.in_use
put_in-in_use true r c = refl
put_in-in_use false r c = refl

send_on_lem :
    (idx : ℕ) (is_a : Bool) (out into : List ℕ) (buf len : ℕ) (v : Net)
    → Linked idx is_a v out into
    → Sent idx is_a out into buf len v (send_on idx is_a buf len v)
unfolding send_on
send_on_lem idx is_a out into buf len v l =
    let c : UnixConn = conn_at idx v in
    let n : ℕ = min len (ring_size - length out) in
    let counted : room len (out_ring is_a c) ≡ n =
      ap (λ k. min len (ring_size - k)) l.sends.counted in
    let bs : List ℕ = load n buf v.memory in
    let long : length bs ≡ n = length-load n buf v.memory in
    let r : ByteRing = Stream.write bs (out_ring is_a c) in
    let c' : UnixConn = put_out is_a r c in
    let result : send_on idx is_a buf len v ≡ (value n, put_conn idx c' v) =
      rw (l.in_use, counted, send_on) refl in
    let held = write-Holds bs l.sends (omega (arith, long, l.sends.stored.room)) in
    subst (Sent idx is_a out into buf len v) (sym result) (record {
      reply = refl;
      linked =
          put_conn-Linked idx is_a c' v (out ++ bs) into l.in_range
            (put_out-in_use is_a r c ∙ l.in_use)
            (subst (λ s. Holds ring_size s (out ++ bs)) (sym (out-put_out is_a r c)) held)
            (subst (λ s. Holds ring_size s into) (sym (in-put_out is_a r c)) l.receives);
      tables = refl;
      memory = refl;
    })

recv_on_lem :
    (idx : ℕ) (is_a : Bool) (out into : List ℕ) (buf len : ℕ) (v : Net)
    → Linked idx is_a v out into
    → Received idx is_a out into buf len v (recv_on idx is_a buf len v)
unfolding recv_on
recv_on_lem idx is_a out into buf len v l =
    let c : UnixConn = conn_at idx v in
    let n : ℕ = min len (length into) in
    let done = Stream.read len (in_ring is_a c) in
    let (taken, held) = read-Holds len l.receives in
    let v0 : Net = record v { memory = store buf done.0 v.memory } in
    let c' : UnixConn = put_in is_a done.1 c in
    let result : recv_on idx is_a buf len v ≡ (value (length done.0), put_conn idx c' v0) =
      rw (l.in_use, recv_on) refl in
    subst (Received idx is_a out into buf len v) (sym result) (record {
      reply = ap value (ap length taken ∙ length-take n into (omega arith));
      linked =
          put_conn-Linked idx is_a c' v0 out (drop n into) l.in_range
            (put_in-in_use is_a done.1 c ∙ l.in_use)
            (subst (λ s. Holds ring_size s out) (sym (out-put_in is_a done.1 c)) l.sends)
            (subst (λ s. Holds ring_size s (drop n into)) (sym (in-put_in is_a done.1 c)) held);
      tables = refl;
      memory = ap (λ bs. store buf bs v.memory) taken;
    })

pub handle_send_refines :
    (pid fd idx : ℕ) (is_a : Bool) (out into : List ℕ) (buf len : ℕ) (v : Net)
    → Linked idx is_a v out into
    → IsSide pid fd idx is_a v
    → Sent idx is_a out into buf len v (handle_send pid fd buf len v)
unfolding handle_send
handle_send_refines pid fd idx is_a out into buf len v l (slot, i, t, s, slot_eq, at, conn) =
    rw (slot_eq, at, conn, handle_send) (send_on_lem idx is_a out into buf len v l)

-- A receive on a connected socket takes the oldest bytes that its peer has sent, at most as many as it
-- asks for, and stores them in order at the buffer of the caller; the reply is their number.
handle_recv_refines :
    (pid fd idx : ℕ) (is_a : Bool) (out into : List ℕ) (buf len : ℕ) (v : Net)
    → Linked idx is_a v out into
    → IsSide pid fd idx is_a v
    → Received idx is_a out into buf len v (handle_recv pid fd buf len v)
unfolding handle_recv
handle_recv_refines pid fd idx is_a out into buf len v l (slot, i, t, s, slot_eq, at, conn) =
    rw (slot_eq, at, conn, handle_recv) (recv_on_lem idx is_a out into buf len v l)

IsSide-tables :
    (pid fd idx : ℕ) (is_a : Bool) (v w : Net)
    → w.tables ≡ v.tables
    → IsSide pid fd idx is_a v
    → IsSide pid fd idx is_a w
IsSide-tables pid fd idx is_a v w e (slot, i, t, s, slot_eq, at, conn) =
    (slot, i, t, s, slot_eq, ap (sock_at pid slot) e ∙ at, conn)

-- Bytes that one end of a connection sends while its peer has none to receive, at most as many as the
-- ring holds, reach the peer: both calls reply with the number of bytes, and the buffer of the
-- receiver holds the bytes of the sender, whichever side sends.
pub handle_recv-handle_send :
    (pid fd pid' fd' idx : ℕ) (is_a : Bool) (into : List ℕ) (buf to len : ℕ) (v : Net)
    → Linked idx is_a v [] into
    → IsSide pid fd idx is_a v
    → IsSide pid' fd' idx (not is_a) v
    → len ≤ ring_size
    → (v1 v2 : Net) × (handle_send pid fd buf len v ≡ (value len, v1))
      × (handle_recv pid' fd' to len v1 ≡ (value len, v2))
      × (load len to v2.memory ≡ load len buf v.memory)
handle_recv-handle_send pid fd pid' fd' idx is_a into buf to len v l side peer fits =
    let sent : Reply × Net = handle_send pid fd buf len v in
    let s = handle_send_refines pid fd idx is_a [] into buf len v l side in
    let all : min len (ring_size - 0) ≡ len = omega (arith, fits) in
    let bs : List ℕ = load len buf v.memory in
    let long : length bs ≡ len = length-load len buf v.memory in
    let linked : Linked idx is_a sent.1 bs into =
      subst (λ k. Linked idx is_a sent.1 (load k buf v.memory) into) all s.linked in
    let got : Reply × Net = handle_recv pid' fd' to len sent.1 in
    let r =
      handle_recv_refines pid' fd' idx (not is_a) into bs to len sent.1 (Linked-flip linked)
        (IsSide-tables pid' fd' idx (not is_a) v sent.1 s.tables peer) in
    let whole : min len (length bs) ≡ len = omega (arith, long) in
    let every : take (min len (length bs)) bs ≡ bs =
      ap (λ k. take k bs) (whole ∙ sym long) ∙ take_all bs in
    (
      sent.1,
      got.1,
      ap₂ (λ a b. (a, b)) (s.reply ∙ ap value all) refl,
      ap₂ (λ a b. (a, b)) (r.reply ∙ ap value whole) refl,
      ap (load len to) (r.memory ∙ ap (λ x. store to x sent.1.memory) every)
          ∙ subst (λ k. load k to (store to bs sent.1.memory) ≡ bs) long
              (load-store to bs sent.1.memory),
    )
