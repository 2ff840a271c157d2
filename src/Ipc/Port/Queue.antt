-- ===== src/Ipc/Port/Queue.antt =====
-- The message queue of one port (`enqueue` and `dequeue` of ipc/src/port.rs) refines a queue that
-- keeps fewer than 16 messages.
use cyanos.Base.{
  suc, ◌+◌, ◌%◌, ◌<◌, ◌≡◌, refl, ◌≢◌, List, [], ◌∷◌, arith, ℕ_discrete, ==_true, ==_false, lt→ltb,
  length,
}
use cyanos.Base.Circle.{
  Holds, Holds-is_full, Holds-is_empty, Holds-push, Holds-pop, fifo_push, fifo_pop,
}
use cyanos.Ipc.Message.{Message}
use cyanos.Ipc.Port.{PortEntry, queue_depth, enqueue, dequeue}

-- The entry's queue holds the messages `q`, oldest first.
abbrev pub HasMessages : PortEntry → List Message → Type 0
HasMessages e q = Holds queue_depth e.queue e.head e.tail q

pub enqueue_refines :
    (msg : Message) {e : PortEntry} {q : List Message}
    → HasMessages e q
    → ((enqueue msg e).0 ≡ (fifo_push queue_depth q msg).0)
      × HasMessages (enqueue msg e).1 (fifo_push queue_depth q msg).1
      × ((enqueue msg e).1.id ≡ e.id)
      × ((enqueue msg e).1.owner_pid ≡ e.owner_pid)
unfolding enqueue fifo_push
enqueue_refines msg {e} {q} v = elim (ℕ_discrete ((e.tail + 1) % queue_depth) e.head) [
  | yes c ↦ rw (==_true _ _ c) (ground (arith, (Holds-is_full v).0 c))
  | no c ↦
      let ne : suc (length q) ≢ queue_depth = λ k. c ((Holds-is_full v).1 k) in
      let free : suc (length q) < queue_depth = omega (arith, v.room) in
      rw (==_false _ _ c, lt→ltb _ _ free) (refl, Holds-push msg v free, refl, refl)
]

pub dequeue_refines :
    {e : PortEntry} {q : List Message}
    → HasMessages e q
    → ((dequeue e).0 ≡ (fifo_pop q).0)
      × HasMessages (dequeue e).1 (fifo_pop q).1
      × ((dequeue e).1.id ≡ e.id)
      × ((dequeue e).1.owner_pid ≡ e.owner_pid)
unfolding dequeue fifo_pop
dequeue_refines {q = []} v = rw (==_true _ _ ((Holds-is_empty v).1 refl)) (refl, v, refl, refl)
dequeue_refines {e} {q = x ∷ q} v =
    let ne : e.head ≢ e.tail = λ c. not_nil ((Holds-is_empty v).0 c) in
    let (first, rest) = Holds-pop v in rw (==_false _ _ ne) (first, rest, refl, refl)
  where
    not_nil : {x : Message} {q : List Message} → x ∷ q ≢ []
    not_nil e = cc
