-- ===== src/Ipc/Port/Probe.antt =====
-- The lookup of a port (`find` of ipc/src/port.rs) along its probe path.
use cyanos.Base.{
  ℕ, zero, suc, ◌+◌, ◌≤◌, ◌<◌, ◌≡◌, refl, sym, subst, ◌≢◌, ◌↔◌, inl, inr, false, some, List, arith,
  ℕ_discrete, Bool-cases, ==_true, ==_false,
}
use cyanos.Ipc.Port.{PortEntry, PortTable, bucket, probe, is_free, find_from, find, probe_limit}

-- Before probe step `k` the path meets neither a free bucket nor the port.
abbrev pub PassedOver : List PortEntry → ℕ → ℕ → ℕ → Type 0
PassedOver bs port i k =
    (m : ℕ)
    → i ≤ m
    → m < k
    → (is_free (bucket bs (probe port m)) ≡ false) × ((bucket bs (probe port m)).id ≢ port)

-- The first bucket on the path that stands for the port, with nothing free before it.
pub record Probed (bs : List PortEntry) (port i n idx : ℕ) : Type 0 where
  pub step : ℕ
  pub from : i ≤ step
  pub upto : step < i + n
  pub at : idx ≡ probe port step
  pub taken : is_free (bucket bs idx) ≡ false
  pub is_port : (bucket bs idx).id ≡ port
  pub before : PassedOver bs port i step

find_from-Probed :
    (bs : List PortEntry) (port n i idx : ℕ)
    → find_from bs port n i ≡ some idx
    → Probed bs port i n idx
unfolding find_from
find_from-Probed bs port zero i idx e = absurd (cc)
find_from-Probed bs port (suc n) i idx e = elim (Bool-cases (is_free (bucket bs (probe port i)))) [
  | inl free ↦ absurd (ground arith)
  | inr full ↦ elim (ℕ_discrete (bucket bs (probe port i)).id port) [
    | yes hit ↦
        let same : probe port i ≡ idx = ground arith in
        record {
          step = i;
          from = omega arith;
          upto = omega arith;
          at = sym same;
          taken = subst (λ t. is_free (bucket bs t) ≡ false) same full;
          is_port = subst (λ t. (bucket bs t).id ≡ port) same hit;
          before = λ m a b. absurd (omega arith);
        }
    | no miss ↦
        let l = find_from-Probed bs port n (i + 1) idx (ground arith) in
        record {
          step = l.step;
          from = omega (arith, l.from);
          upto = omega (arith, l.upto);
          at = l.at;
          taken = l.taken;
          is_port = l.is_port;
          before = λ m a b. elim (ℕ_discrete m i) [
            | yes same ↦ rw same (full, miss)
            | no later ↦ l.before m (omega arith) b
          ];
        }
  ]
]

find_from-reaches :
    (bs : List PortEntry) (port n i k : ℕ)
    → i ≤ k
    → k < i + n
    → is_free (bucket bs (probe port k)) ≡ false
    → (bucket bs (probe port k)).id ≡ port
    → PassedOver bs port i k
    → find_from bs port n i ≡ some (probe port k)
unfolding find_from
find_from-reaches bs port zero i k a b full hit before = absurd (omega arith)
find_from-reaches bs port (suc n) i k a b full hit before = elim (ℕ_discrete i k) [
  | yes same ↦ rw (same, full, ==_true _ _ hit)
  | no ne ↦
      let (full', miss) = before i (omega arith) (omega arith) in
      rw (full', ==_false _ _ miss)
        (find_from-reaches bs port n (i + 1) k (omega arith) (omega arith) full hit
          (λ m a' b'. before m (omega arith) b'))
]

-- `find` returns a bucket exactly when it holds the port at one of the 16 steps of its probe path,
-- with only taken buckets of other ports before it.
pub find_iff :
    (port idx : ℕ) (t : PortTable)
    → (find port t ≡ some idx) ↔ Probed t.buckets port 0 probe_limit idx
unfolding find
find_iff port idx t = (
  find_from-Probed t.buckets port probe_limit 0 idx,
  λ l.
      subst (λ k. find_from t.buckets port probe_limit 0 ≡ some k) (sym l.at)
        (find_from-reaches t.buckets port probe_limit 0 l.step l.from l.upto
          (subst (λ k. is_free (bucket t.buckets k) ≡ false) l.at l.taken)
          (subst (λ k. (bucket t.buckets k).id ≡ port) l.at l.is_port) l.before),
)

-- The lookup reads only the ids of the buckets.
find_from_ids :
    (bs cs : List PortEntry)
    → ((k : ℕ) → (bucket bs k).id ≡ (bucket cs k).id)
    → (port n i : ℕ) → find_from bs port n i ≡ find_from cs port n i
unfolding find_from
find_from_ids bs cs h port zero i = refl
find_from_ids bs cs h port (suc n) i = rw (h (probe port i), find_from_ids bs cs h port n (i + 1))

pub find_ids :
    (t u : PortTable)
    → ((k : ℕ) → (bucket t.buckets k).id ≡ (bucket u.buckets k).id)
    → (port : ℕ) → find port t ≡ find port u
unfolding find
find_ids t u h port = find_from_ids t.buckets u.buckets h port probe_limit 0
