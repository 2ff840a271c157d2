-- ===== src/Ipc/Port.antt =====
-- ipc/src/port.rs: the open-addressed table of ports, each with its owner and a bounded queue. The
-- calls that wake a receiver use the run queue of the scheduler, so both make up the state.
pub mod Queue
pub mod Probe
pub mod Table
pub mod Create
pub mod Owner
pub mod Close
pub mod Transfer
pub mod Release
use cyanos.Base.{
  ℕ, zero, suc, ◌+◌, ◌-◌, ◌%◌, Bool, true, false, not, ◌&&◌, Option, none, some, List, [], ◌∷◌, ltb,
  ◌==◌, if◌then◌else◌, get_or, set, replicate, add32, max_u32,
}
use cyanos.Sched.RunQueue.{RunQueue}
use cyanos.Sched.RunQueue
use cyanos.Ipc.Message.{Message}

abbrev pub max_ports : ℕ
max_ports = 65536

abbrev pub queue_depth : ℕ
queue_depth = 16

-- `EMPTY_ID`.
abbrev pub empty_id : ℕ
empty_id = max_u32

abbrev pub live_buckets : ℕ
live_buckets = 4096

abbrev pub probe_limit : ℕ
probe_limit = 16

pub data SendError : Type 0 where
  port_not_found queue_full : SendError

pub data SendResult : Type 0 where
  ok : SendResult
  err : SendError → SendResult

pub record PortEntry : Type 0 where
  pub id : ℕ
  pub owner_pid : ℕ
  pub queue : List (Option Message)
  pub head : ℕ
  pub tail : ℕ

unfoldable pub empty_entry : PortEntry
unfolding replicate
empty_entry = record {
  id = empty_id;
  owner_pid = 0;
  queue = replicate queue_depth none;
  head = 0;
  tail = 0;
}

abbrev pub is_free : PortEntry → Bool
is_free e = e.id == empty_id

unfoldable pub enqueue : Message → PortEntry → Bool × PortEntry
enqueue msg e =
    let next = (e.tail + 1) % queue_depth in
    if next == e.head
    then (false, e)
    else (true, record e { queue = set e.queue e.tail (some msg); tail = next })

unfoldable pub dequeue : PortEntry → Option Message × PortEntry
dequeue e = if e.head == e.tail then (none, e) else (
  get_or e.queue e.head none,
  record e { queue = set e.queue e.head none; head = (e.head + 1) % queue_depth },
)

pub record PortTable : Type 0 where
  pub buckets : List PortEntry
  pub next_id : ℕ

unfoldable pub new : PortTable
new = record { buckets = replicate live_buckets empty_entry; next_id = 0 }

-- `self.buckets[idx]`. The code takes every index modulo the number of buckets.
unfoldable pub bucket : List PortEntry → ℕ → PortEntry
bucket bs idx = get_or bs idx empty_entry

-- The index of probe step `i` for a port.
abbrev pub probe : ℕ → ℕ → ℕ
probe port i = (port % live_buckets + i) % live_buckets

-- The loop of `find` and `find_mut`, with `n` steps left from step `i` on.
unfoldable pub find_from : List PortEntry → ℕ → ℕ → ℕ → Option ℕ
find_from bs port zero i = none
find_from bs port (suc n) i =
    let rest = find_from bs port n (i + 1) in
    if is_free (bucket bs (probe port i))
    then none
    else if (bucket bs (probe port i)).id == port
    then some (probe port i)
    else rest

unfoldable pub find : ℕ → PortTable → Option ℕ
find port t = find_from t.buckets port probe_limit 0

-- The inner loop of `alloc`: the first free bucket for the port number `id`.
unfoldable pub free_from : List PortEntry → ℕ → ℕ → ℕ → Option ℕ
free_from bs id zero i = none
free_from bs id (suc n) i =
    let rest = free_from bs id n (i + 1) in
    if is_free (bucket bs (probe id i)) then some (probe id i) else rest

-- `next_id.wrapping_add(1) % MAX_PORTS`.
abbrev pub bump : ℕ → ℕ
bump id = add32 id 1 % max_ports

-- The bucket keeps the queue array that it has: only the four fields are written.
abbrev pub claim : ℕ → ℕ → PortEntry → PortEntry
claim id owner e = record e { id = id; owner_pid = owner; head = 0; tail = 0 }

-- The outer loop of `alloc`, with `n` rounds left.
unfoldable pub alloc_from : ℕ → ℕ → PortTable → Option (ℕ × ℕ) × PortTable
alloc_from zero owner t = (none, t)
alloc_from (suc n) owner t =
    let id = t.next_id in
    elim (free_from t.buckets id probe_limit 0) [
      | some idx ↦ (
        some (id, idx),
        record {
          buckets = set t.buckets idx (claim id owner (bucket t.buckets idx));
          next_id = bump id;
        },
      )
      | none ↦ alloc_from n owner (record t { next_id = bump id })
    ]

unfoldable pub alloc : ℕ → PortTable → Option (ℕ × ℕ) × PortTable
alloc owner t = alloc_from max_ports owner t

unfoldable pub create : ℕ → PortTable → Option ℕ × PortTable
create pid t = let (r, t') = alloc pid t in (elim r [ none ↦ none | some p ↦ some p.0 ], t')

unfoldable pub close : ℕ → PortTable → PortTable
close port t = elim (find port t) [
  | none ↦ t
  | some idx ↦ record t { buckets = set t.buckets idx empty_entry }
]

pub record State : Type 0 where
  pub table : PortTable
  pub run_queue : RunQueue

unfoldable pub send : ℕ → Message → State → SendResult × State
send port msg s = elim (find port s.table) [
  | none ↦ (err port_not_found, s)
  | some idx ↦
      let (done, e) = enqueue msg (bucket s.table.buckets idx) in
      if done
      then (
        ok,
        record {
          table = record (s.table) { buckets = set s.table.buckets idx e };
          run_queue = RunQueue.unblock_port port s.run_queue;
        },
      )
      else (err queue_full, s)
]

unfoldable port_stats : ℕ → PortTable → Option (ℕ × ℕ)
port_stats port t = elim (find port t) [
  | none ↦ none
  | some idx ↦
      let b = bucket t.buckets idx in
      some ((b.tail + queue_depth - b.head) % queue_depth, queue_depth - 1)
]

-- `self.buckets[idx].dequeue()`.
unfoldable pub take_from : ℕ → PortTable → Option Message × PortTable
take_from idx t =
    let (msg, e) = dequeue (bucket t.buckets idx) in
    (msg, record t { buckets = set t.buckets idx e })

unfoldable pub recv : ℕ → PortTable → Option Message × PortTable
recv port t = elim (find port t) [ none ↦ (none, t) | some idx ↦ take_from idx t ]

unfoldable pub recv_as : ℕ → ℕ → PortTable → Option Message × PortTable
recv_as port caller t = elim (find port t) [
  | none ↦ (none, t)
  | some idx ↦ if (bucket t.buckets idx).owner_pid == caller then take_from idx t else (none, t)
]

unfoldable pub is_owner : ℕ → ℕ → PortTable → Bool
is_owner port pid t = elim (find port t) [
  | none ↦ false
  | some idx ↦ (bucket t.buckets idx).owner_pid == pid
]

abbrev pub is_owned_by : ℕ → PortEntry → Bool
is_owned_by pid b = not (is_free b) && b.owner_pid == pid

-- The loop of `release_by_owner` over the buckets, with `n` ids recorded so far: the buckets after
-- it, and the ids that it records (at most 64).
unfoldable pub release_buckets : ℕ → ℕ → List PortEntry → List PortEntry × List ℕ
release_buckets pid n [] = ([], [])
release_buckets pid n (b ∷ bs) =
    let record_id = is_owned_by pid b && ltb n 64 in
    let rest = release_buckets pid (if record_id then n + 1 else n) bs in
    (
      (if is_owned_by pid b then empty_entry else b) ∷ rest.0,
      if record_id then b.id ∷ rest.1 else rest.1,
    )

unfoldable unblock_ports : List ℕ → RunQueue → RunQueue
unblock_ports [] rq = rq
unblock_ports (p ∷ ps) rq = unblock_ports ps (RunQueue.unblock_port p rq)

unfoldable pub release_by_owner : ℕ → State → State
unfolding unblock_ports
release_by_owner pid s =
    let (bs, closed) = release_buckets pid 0 s.table.buckets in
    record {
      table = record (s.table) { buckets = bs };
      run_queue = unblock_ports closed s.run_queue;
    }
