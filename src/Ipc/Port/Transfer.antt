-- ===== src/Ipc/Port/Transfer.antt =====
-- `send`, `recv` and `recv_as` of ipc/src/port.rs against the queue of the port.
use cyanos.Base.{
  ℕ, ◌<◌, ◌≡◌, sym, ap, subst, ◌∙◌, ◌≢◌, some, List, arith, ℕ_discrete, set, suc, refl, none, [],
  ◌∷◌, ◌++◌, if◌then◌else◌, lt→ltb, length, inl, inr, Bool-cases, Option-cases, ==_true, ==_false,
  ltb-false, dec_lt, ltb, ◌==◌,
}
use cyanos.Base.Circle.{fifo_push, fifo_pop, fifo_push-room, fifo_push-full}
use cyanos.Ipc.Message.{Message}
use cyanos.Sched.RunQueue
use cyanos.Ipc.Port.{
  State, PortEntry, PortTable, ok, err, queue_full, bucket, find, live_buckets, queue_depth,
  enqueue, send, take_from, recv, recv_as,
}
use cyanos.Ipc.Port.Queue.{HasMessages, enqueue_refines, dequeue_refines}
use cyanos.Ipc.Port.Probe.{find_iff, find_ids}
use cyanos.Ipc.Port.Table.{IsValid, bucket-set_self, bucket-set_ne, probe-lt, set-IsValid}

-- What a client knows of a port: it is found, its owner, and the messages that wait in it.
pub record Serves (t : PortTable) (port owner : ℕ) (q : List Message) : Type 0 where
  pub idx : ℕ
  pub found : find port t ≡ some idx
  pub owned : (bucket t.buckets idx).owner_pid ≡ owner
  pub holds : HasMessages (bucket t.buckets idx) q

found_in : (port idx : ℕ) (t : PortTable) → find port t ≡ some idx → idx < live_buckets
found_in port idx t e =
    let l = (find_iff port idx t).0 e in omega (arith, l.at, probe-lt port l.step)

-- Writing a bucket that keeps its id.
module _ (t : PortTable) (v : IsValid t) (port idx : ℕ) (e : PortEntry) (f : find port t ≡ some idx)
    (same_id : e.id ≡ (bucket t.buckets idx).id) (next : ℕ) where
  abbrev written : PortTable
  written = record { buckets = set t.buckets idx e; next_id = next }

  ids_kept : (k : ℕ) → (bucket written.buckets k).id ≡ (bucket t.buckets k).id
  ids_kept k = elim (ℕ_discrete idx k) [
    | yes same ↦
        subst (λ j. (bucket (set t.buckets idx e) j).id ≡ (bucket t.buckets j).id) same
          (ap (λ b. b.id) (bucket-set_self t.buckets idx e v.size (found_in port idx t f))
            ∙ same_id)
    | no other ↦ ap (λ b. b.id) (bucket-set_ne t.buckets idx k e other)
  ]

  Serves-written :
      (owner : ℕ) (q : List Message)
      → e.owner_pid ≡ owner
      → HasMessages e q
      → Serves written port owner q
  Serves-written owner q o w = record {
    idx = idx;
    found = find_ids written t ids_kept port ∙ f;
    owned = ap (λ b. b.owner_pid) here ∙ o;
    holds = rw here w;
  }
    where
      here : bucket (set t.buckets idx e) idx ≡ e
      here = bucket-set_self t.buckets idx e v.size (found_in port idx t f)

  -- Another port lies in another bucket, and serves the same messages.
  Serves-elsewhere :
      (other owner : ℕ) (q : List Message)
      → port ≢ other
      → Serves t other owner q
      → Serves written other owner q
  Serves-elsewhere other owner q ne s = record {
    idx = s.idx;
    found = find_ids written t ids_kept other ∙ s.found;
    owned = rw away s.owned;
    holds = rw away s.holds;
  }
    where
      apart : idx ≢ s.idx
      apart same = ne (
          sym ((find_iff port idx t).0 f).is_port
          ∙ ap (λ k. (bucket t.buckets k).id) same
          ∙ ((find_iff other s.idx t).0 s.found).is_port)

      away : bucket (set t.buckets idx e) s.idx ≡ bucket t.buckets s.idx
      away = bucket-set_ne t.buckets idx s.idx e apart

send-room :
    (port owner : ℕ) (msg : Message) (q : List Message) (s : State)
    → IsValid s.table
    → Serves s.table port owner q
    → suc (length q) < queue_depth
    → ((send port msg s).0 ≡ ok)
      × Serves (send port msg s).1.table port owner (q ++ (msg ∷ []))
      × ((send port msg s).1.run_queue ≡ RunQueue.unblock_port port s.run_queue)
unfolding send
send-room port owner msg q s v w room =
    let (done, after, same_id, same_owner) =
      enqueue_refines msg {e = bucket s.table.buckets w.idx} w.holds in
    let accepted = fifo_push-room queue_depth q msg room in
    rw (w.found, send)
      (rw (done ∙ ap (λ r. r.0) accepted) (
        refl,
        Serves-written s.table v port w.idx _ w.found same_id s.table.next_id owner
            (q ++ (msg ∷ [])) (same_owner ∙ w.owned) (rw accepted at after),
        refl,
      ))

send-full :
    (port owner : ℕ) (msg : Message) (q : List Message) (s : State)
    → Serves s.table port owner q
    → suc (length q) ≡ queue_depth
    → send port msg s ≡ (err queue_full, s)
unfolding send
send-full port owner msg q s w full =
    let refused = fifo_push-full queue_depth q msg (omega arith) in
    rw (w.found, send)
      (rw
        ((enqueue_refines msg {e = bucket s.table.buckets w.idx} w.holds).0 ∙ ap (λ r. r.0) refused)
        refl)

-- On a well-formed table, `send` to a port that is found refines the push on a queue of 15 messages:
-- with room, the message is queued behind those that wait, the receivers of the port are woken, and
-- the result is ok; without room the result says that the queue is full, and the messages and the
-- tasks are as before.
pub send_refines :
    (port owner : ℕ) (msg : Message) (q : List Message) (s : State)
    → IsValid s.table
    → Serves s.table port owner q
    → ((send port msg s).0 ≡ (if ltb (suc (length q)) queue_depth then ok else err queue_full))
      × Serves (send port msg s).1.table port owner (fifo_push queue_depth q msg).1
      × ((send port msg s).1.run_queue ≡ (
          if ltb (suc (length q)) queue_depth
          then RunQueue.unblock_port port s.run_queue
          else s.run_queue))
send_refines port owner msg q s v w = elim (dec_lt (suc (length q)) queue_depth) [
  | yes h ↦
      let (r, served, woken) = send-room port owner msg q s v w h in
      rw (lt→ltb (suc (length q)) queue_depth h, fifo_push-room queue_depth q msg h)
        (r, served, woken)
  | no h ↦
      let full : suc (length q) ≡ queue_depth = omega (arith, w.holds.room) in
      rw
        (
          send-full port owner msg q s w full,
          ltb-false (suc (length q)) queue_depth (omega arith),
          fifo_push-full queue_depth q msg (omega arith),
        )
        (refl, w, refl)
]

-- On a well-formed table, a send to one port, whatever it returns, leaves what another port serves
-- as it was.
pub Serves-send :
    (port other owner : ℕ) (msg : Message) (q : List Message) (s : State)
    → IsValid s.table
    → port ≢ other
    → Serves s.table other owner q
    → Serves (send port msg s).1.table other owner q
unfolding send
Serves-send port other owner msg q s v ne w = elim (Option-cases (find port s.table)) [
  | inl e ↦ rw (e, send) w
  | inr (idx, e) ↦
      let (p, h) = v.queues idx in
      let (_, _, same_id, _) = enqueue_refines msg {e = bucket s.table.buckets idx} h in
      let (done, after) = enqueue msg (bucket s.table.buckets idx) in
      elim (Bool-cases done) [
        | inl yes' ↦
            rw (e, send)
              (rw yes' (
                Serves-elsewhere s.table v port idx after e same_id s.table.next_id other owner q ne
                  w))
        | inr no' ↦ rw (e, send) (rw no' w)
      ]
]

take_lem :
    (port owner : ℕ) (q : List Message) (t : PortTable)
    → IsValid t
    → (w : Serves t port owner q)
    → ((take_from w.idx t).0 ≡ (fifo_pop q).0)
      × Serves (take_from w.idx t).1 port owner (fifo_pop q).1
unfolding take_from
take_lem port owner q t v w =
    let (first, rest, same_id, same_owner) = dequeue_refines {e = bucket t.buckets w.idx} w.holds in
    (
      first,
      Serves-written t v port w.idx _ w.found same_id t.next_id owner (fifo_pop q).1
          (same_owner ∙ w.owned) rest,
    )

-- `recv` returns the oldest message that waits, or none, and leaves the others in order.
recv_refines :
    (port owner : ℕ) (q : List Message) (t : PortTable)
    → IsValid t
    → Serves t port owner q
    → ((recv port t).0 ≡ (fifo_pop q).0) × Serves (recv port t).1 port owner (fifo_pop q).1
unfolding recv
recv_refines port owner q t v w = rw (w.found, recv) (take_lem port owner q t v w)

-- On a well-formed table, `recv_as` returns to the owner of a port that is found the oldest message
-- that waits, or none, and leaves the others in order; any other caller gets none, and the messages
-- stay as they are.
pub recv_as_refines :
    (port owner caller : ℕ) (q : List Message) (t : PortTable)
    → IsValid t
    → Serves t port owner q
    → ((recv_as port caller t).0 ≡ (if owner == caller then (fifo_pop q).0 else none))
      × Serves (recv_as port caller t).1 port owner (if owner == caller then (fifo_pop q).1 else q)
unfolding recv_as
recv_as_refines port owner caller q t v w = elim (ℕ_discrete owner caller) [
  | yes mine ↦
      rw (w.found, recv_as, w.owned) (rw (==_true owner caller mine) (take_lem port owner q t v w))
  | no other ↦ rw (w.found, recv_as, w.owned) (rw (==_false owner caller other) (refl, w))
]

-- `send` keeps the table well formed.
send-IsValid :
    (port : ℕ) (msg : Message) (s : State) → IsValid s.table → IsValid (send port msg s).1.table
unfolding send
send-IsValid port msg s v = elim (Option-cases (find port s.table)) [
  | inl e ↦ rw (e, send) v
  | inr (idx, e) ↦
      let (p, h) = v.queues idx in
      let (_, w, _, _) = enqueue_refines msg {e = bucket s.table.buckets idx} h in
      let (done, after) = enqueue msg (bucket s.table.buckets idx) in
      elim (Bool-cases done) [
        | inl yes' ↦
            rw (e, send)
              (rw yes' (
                set-IsValid s.table idx s.table.next_id after _ v (found_in port idx s.table e)
                  v.next_in w))
        | inr no' ↦ rw (e, send) (rw no' v)
      ]
]
