-- ===== src/Ipc/Port/Close.antt =====
-- What `close` of ipc/src/port.rs does to lookups.
use cyanos.Base.{
  ℕ, zero, suc, ◌+◌, ◌≤◌, ◌<◌, ◌≡◌, refl, sym, ap, ◌≢◌, inl, inr, true, none, some, List, [], arith,
  ℕ_discrete, Option-cases, ==_false, set, ◌∙◌,
}
use cyanos.Ipc.Port.{
  PortEntry, PortTable, bucket, probe, is_free, find_from, find, probe_limit, empty_entry, close,
}
use cyanos.Ipc.Port.Probe.{Probed, PassedOver, find_iff}
use cyanos.Ipc.Port.Table.{
  IsValid, bucket-set_self, bucket-set_ne, probe-lt, set-IsValid, empty_entry-HasMessages,
}

-- A lookup stops at the first free bucket of the path.
find_from-stops :
    (bs : List PortEntry) (port n i k : ℕ)
    → i ≤ k
    → is_free (bucket bs (probe port k)) ≡ true
    → PassedOver bs port i k
    → find_from bs port n i ≡ none
unfolding find_from
find_from-stops bs port zero i k a free before = refl
find_from-stops bs port (suc n) i k a free before = elim (ℕ_discrete i k) [
  | yes same ↦ rw (same, free)
  | no ne ↦
      let (full, miss) = before i (omega arith) (omega arith) in
      rw (full, ==_false _ _ miss)
        (find_from-stops bs port n (i + 1) k (omega arith) free (λ m p q. before m (omega arith) q))
]

probe-ne : (port m k : ℕ) → m < k → k < probe_limit → probe port k ≢ probe port m
probe-ne port m k a b = omega arith

close-found :
    (port idx : ℕ) (t : PortTable)
    → find port t ≡ some idx
    → close port t ≡ record t { buckets = set t.buckets idx empty_entry }
unfolding close
close-found port idx t e = rw (e, close)

is_free-empty_entry : is_free empty_entry ≡ true
unfolding empty_entry
is_free-empty_entry = refl

module _ (t : PortTable) (v : IsValid t) (port k : ℕ) (small : k < probe_limit)
    (bs : List PortEntry) (cut : bs ≡ set t.buckets (probe port k) empty_entry) where
  -- Emptying the bucket at step `k` of a path ends every lookup along it there.
  stops_at : PassedOver t.buckets port 0 k → find_from bs port probe_limit 0 ≡ none
  stops_at before =
      find_from-stops bs port probe_limit 0 k (omega arith)
        (rw (cut, bucket-set_self t.buckets (probe port k) empty_entry v.size (probe-lt port k))
          is_free-empty_entry)
        (λ m a b.
          rw
            (
              cut,
              bucket-set_ne t.buckets (probe port k) (probe port m) empty_entry
                  (probe-ne port m k b small),
            )
            (before m a b))

-- A port that was open is not found after `close`.
find-close :
    (port idx : ℕ) (t : PortTable)
    → IsValid t
    → find port t ≡ some idx
    → find port (close port t) ≡ none
unfolding find
find-close port idx t v e =
    let l = (find_iff port idx t).0 e in
    rw (close-found port idx t e) (
      stops_at t v port l.step l.upto (set t.buckets idx empty_entry)
        (ap (λ j. set t.buckets j empty_entry) l.at) l.before)

-- On a well-formed table, closing a port loses every port that was stored behind it: if the bucket
-- of `port` lies on the probe path of another port, before that port's own bucket, then the other
-- port is not found any more, although its bucket still holds it.
pub find-close_behind :
    (port other k s : ℕ) (t : PortTable)
    → IsValid t
    → find port t ≡ some (probe other s)
    → find other t ≡ some (probe other k)
    → s < k
    → k < probe_limit
    → (find other (close port t) ≡ none)
      × (bucket (close port t).buckets (probe other k) ≡ bucket t.buckets (probe other k))
unfolding find
find-close_behind port other k s t v e f a b =
    let l = (find_iff other (probe other k) t).0 f in
    let same : l.step ≡ k = omega (arith, l.at, l.upto) in
    rw (close-found port (probe other s) t e) (
      stops_at t v other s (omega arith) (set t.buckets (probe other s) empty_entry) refl
          (λ m p q. l.before m p (omega arith)),
      bucket-set_ne t.buckets (probe other s) (probe other k) empty_entry
          (λ c. probe-ne other s k a b (sym c)),
    )

-- A port whose path up to its bucket does not meet the closed port's bucket is found as before.
find-close_apart :
    (port idx other j : ℕ) (t : PortTable)
    → find port t ≡ some idx
    → (l : Probed t.buckets other 0 probe_limit j) → ((m : ℕ) → m ≤ l.step → idx ≢ probe other m)
    → find other (close port t) ≡ some j
find-close_apart port idx other j t e l apart = rw (close-found port idx t e) (
    (find_iff other j (record t { buckets = set t.buckets idx empty_entry })).1 (record {
      step = l.step;
      from = l.from;
      upto = l.upto;
      at = l.at;
      taken = rw (here) l.taken;
      is_port = rw (here) l.is_port;
      before = λ m a b. rw (kept m (omega arith)) (l.before m a b);
    }))
  where
    kept :
        (m : ℕ)
        → m ≤ l.step
        → bucket (set t.buckets idx empty_entry) (probe other m) ≡ bucket t.buckets (probe other m)
    kept m h = bucket-set_ne t.buckets idx (probe other m) empty_entry (apart m h)

    here : bucket (set t.buckets idx empty_entry) j ≡ bucket t.buckets j
    here = bucket-set_ne t.buckets idx j empty_entry (λ c. apart l.step (omega arith) (c ∙ l.at))

-- `close` keeps the table well formed.
close-IsValid : (port : ℕ) (t : PortTable) → IsValid t → IsValid (close port t)
unfolding close
close-IsValid port t v = elim (Option-cases (find port t)) [
  | inl e ↦ rw (e, close) v
  | inr (idx, e) ↦
      let l = (find_iff port idx t).0 e in
      rw (e, close)
        (set-IsValid t idx t.next_id empty_entry [] v (omega (arith, l.at, probe-lt port l.step))
          v.next_in empty_entry-HasMessages)
]
