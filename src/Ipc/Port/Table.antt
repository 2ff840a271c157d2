-- ===== src/Ipc/Port/Table.antt =====
-- The well-formed port table of ipc/src/port.rs.
use cyanos.Base.{
  ℕ, ◌<◌, ◌≡◌, refl, ◌∙◌, ◌≢◌, none, List, [], arith, ℕ_discrete, length, set, length-set,
  length-replicate, get_or-set_self, get_or-set_ne, get_or-replicate, Option,
}
use cyanos.Ipc.Message.{Message}
use cyanos.Ipc.Port.{
  PortEntry, PortTable, new, bucket, probe, live_buckets, max_ports, queue_depth, empty_entry,
  claim,
}
use cyanos.Ipc.Port.Queue.{HasMessages}

-- 4096 buckets, each with a well-formed queue, and a next id in range.
pub record IsValid (t : PortTable) : Type 0 where
  pub size : length t.buckets ≡ live_buckets
  pub next_in : t.next_id < max_ports
  pub queues : (k : ℕ) → (q : List Message) × HasMessages (bucket t.buckets k) q

pub bucket-set_self :
    (bs : List PortEntry) (i : ℕ) (e : PortEntry)
    → length bs ≡ live_buckets
    → i < live_buckets
    → bucket (set bs i e) i ≡ e
unfolding bucket
bucket-set_self bs i e h p = get_or-set_self bs i e empty_entry (omega arith)

pub bucket-set_ne :
    (bs : List PortEntry) (i k : ℕ) (e : PortEntry) → i ≢ k → bucket (set bs i e) k ≡ bucket bs k
unfolding bucket
bucket-set_ne bs i k e h = get_or-set_ne bs e empty_entry h

pub probe-lt : (port i : ℕ) → probe port i < live_buckets
probe-lt port i = omega arith

-- A bucket with both indices at 0 holds no message.
cleared-HasMessages :
    (e : PortEntry) → length e.queue ≡ queue_depth → e.head ≡ 0 → e.tail ≡ 0 → HasMessages e []
cleared-HasMessages e h a b = record {
  size = h;
  head_in = omega arith;
  room = omega arith;
  tail_at = omega arith;
  slots = refl;
}

pub empty_entry-HasMessages : HasMessages empty_entry []
unfolding empty_entry
empty_entry-HasMessages =
    cleared-HasMessages empty_entry (length-replicate {A = Option Message} queue_depth none) refl
      refl

pub claim-HasMessages :
    (id owner : ℕ) (e : PortEntry) {q : List Message}
    → HasMessages e q
    → HasMessages (claim id owner e) []
claim-HasMessages id owner e v = cleared-HasMessages (claim id owner e) v.size refl refl

pub new-IsValid : IsValid new
unfolding new bucket
new-IsValid = record {
  size = length-replicate live_buckets empty_entry;
  next_in = omega arith;
  queues = λ k. ([], rw (get_or-replicate live_buckets k empty_entry) empty_entry-HasMessages);
}

-- Writing one bucket with a well-formed queue keeps the table well formed.
pub set-IsValid :
    (t : PortTable) (idx next : ℕ) (e : PortEntry) (q : List Message)
    → IsValid t
    → idx < live_buckets
    → next < max_ports
    → HasMessages e q
    → IsValid (record { buckets = set t.buckets idx e; next_id = next })
set-IsValid t idx next e q v h n w = record {
  size = length-set t.buckets idx e ∙ v.size;
  next_in = n;
  queues = λ k. elim (ℕ_discrete idx k) [
    | yes same ↦ (q, rw (← same, bucket-set_self t.buckets idx e v.size h) w)
    | no other ↦ let (p, u) = v.queues k in (p, rw (bucket-set_ne t.buckets idx k e other) u)
  ];
}
