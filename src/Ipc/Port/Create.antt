-- ===== src/Ipc/Port/Create.antt =====
-- What `create` of ipc/src/port.rs returns and does to the table.
use cyanos.Base.{
  ℕ, zero, suc, ◌+◌, ◌≤◌, ◌<◌, ◌≡◌, sym, subst, inl, inr, true, false, none, some, List, arith,
  ℕ_discrete, Bool-cases, Option-cases, set, refl, ap, ◌∙◌, ◌-◌, ◌%◌, Option,
}
use cyanos.Ipc.Port.Table.{IsValid}
use cyanos.Ipc.Port.{
  live_buckets, PortEntry, PortTable, bucket, probe, is_free, free_from, probe_limit, max_ports,
  claim, bump, alloc_from, create, alloc,
}

abbrev pub Taken : List PortEntry → ℕ → ℕ → ℕ → Type 0
Taken bs id i k = (m : ℕ) → i ≤ m → m < k → is_free (bucket bs (probe id m)) ≡ false

record FirstFree (bs : List PortEntry) (id i n idx : ℕ) : Type 0 where
  step : ℕ
  from : i ≤ step
  upto : step < i + n
  at : idx ≡ probe id step
  free : is_free (bucket bs idx) ≡ true
  before : Taken bs id i step

free_from-FirstFree :
    (bs : List PortEntry) (id n i idx : ℕ)
    → free_from bs id n i ≡ some idx
    → FirstFree bs id i n idx
unfolding free_from
free_from-FirstFree bs id zero i idx e = absurd (cc)
free_from-FirstFree bs id (suc n) i idx e = elim (Bool-cases (is_free (bucket bs (probe id i)))) [
  | inl here ↦
      let same : probe id i ≡ idx = ground arith in
      record {
        step = i;
        from = omega arith;
        upto = omega arith;
        at = sym same;
        free = subst (λ t. is_free (bucket bs t) ≡ true) same here;
        before = λ m a b. absurd (omega arith);
      }
  | inr full ↦
      let l = free_from-FirstFree bs id n (i + 1) idx (ground arith) in
      record {
        step = l.step;
        from = omega (arith, l.from);
        upto = omega (arith, l.upto);
        at = l.at;
        free = l.free;
        before = λ m a b. elim (ℕ_discrete m i) [
          | yes same ↦ rw same full
          | no later ↦ l.before m (omega arith) b
        ];
      }
]

free_from-none :
    (bs : List PortEntry) (id n i : ℕ) → free_from bs id n i ≡ none → Taken bs id i (i + n)
unfolding free_from
free_from-none bs id zero i e m a b = absurd (omega arith)
free_from-none bs id (suc n) i e m a b = elim (Bool-cases (is_free (bucket bs (probe id i)))) [
  | inl here ↦ absurd (ground arith)
  | inr full ↦ elim (ℕ_discrete m i) [
    | yes same ↦ rw same full
    | no later ↦ free_from-none bs id n (i + 1) (ground arith) m (omega arith) (omega arith)
  ]
]

-- The table after a successful `create`: one bucket that was free is claimed, at the end of a run
-- of taken buckets on the probe path of the new id, and nothing else is written.
pub record Created (pid : ℕ) (t : PortTable) (p idx : ℕ) (t' : PortTable) : Type 0 where
  pub id_in : p < max_ports
  pub next_in : t'.next_id < max_ports
  pub step : ℕ
  pub upto : step < probe_limit
  pub at : idx ≡ probe p step
  pub was_free : is_free (bucket t.buckets idx) ≡ true
  pub before : Taken t.buckets p 0 step
  pub written : t'.buckets ≡ set t.buckets idx (claim p pid (bucket t.buckets idx))

alloc_from-full :
    (n pid : ℕ) (t : PortTable)
    → free_from t.buckets t.next_id probe_limit 0 ≡ none
    → alloc_from (suc n) pid t ≡ alloc_from n pid (record t { next_id = bump t.next_id })
unfolding alloc_from
alloc_from-full n pid t e = rw (e, alloc_from)

alloc_from-found :
    (n pid : ℕ) (t : PortTable) (i : ℕ)
    → free_from t.buckets t.next_id probe_limit 0 ≡ some i
    → alloc_from (suc n) pid t ≡ (
      some (t.next_id, i),
      record {
        buckets = set t.buckets i (claim t.next_id pid (bucket t.buckets i));
        next_id = bump t.next_id;
      },
    )
unfolding alloc_from
alloc_from-found n pid t i e = rw (e, alloc_from)

alloc_from-none : (pid : ℕ) (t : PortTable) → (alloc_from 0 pid t).0 ≡ none
unfolding alloc_from
alloc_from-none pid t = refl

found-Created :
    (pid : ℕ) (t : PortTable) (idx : ℕ)
    → t.next_id < max_ports
    → FirstFree t.buckets t.next_id 0 probe_limit idx
    → Created pid t t.next_id idx (record {
      buckets = set t.buckets idx (claim t.next_id pid (bucket t.buckets idx));
      next_id = bump t.next_id;
    })
found-Created pid t idx h f = record {
  id_in = h;
  next_in = omega arith;
  step = f.step;
  upto = omega (arith, f.upto);
  at = f.at;
  was_free = f.free;
  before = f.before;
  written = refl;
}

later-Created :
    (pid p idx : ℕ) (t t' : PortTable)
    → Created pid (record t { next_id = bump t.next_id }) p idx t'
    → Created pid t p idx t'
later-Created pid p idx t t' c = record {
  id_in = c.id_in;
  next_in = c.next_in;
  step = c.step;
  upto = c.upto;
  at = c.at;
  was_free = c.was_free;
  before = c.before;
  written = c.written;
}

alloc_from-Created :
    (n pid : ℕ) (t : PortTable) (p idx : ℕ)
    → t.next_id < max_ports
    → (alloc_from n pid t).0 ≡ some (p, idx)
    → Created pid t p idx (alloc_from n pid t).1
alloc_from-Created zero pid t p idx h e = absurd (cc (alloc_from-none pid t))
alloc_from-Created (suc n) pid t p idx h e =
    elim (Option-cases (free_from t.buckets t.next_id probe_limit 0)) [
      | inl full ↦ rw (alloc_from-full n pid t full) (
          later-Created pid p idx t _ (
            alloc_from-Created n pid (record t { next_id = bump t.next_id }) p idx (omega arith)
              (rw (alloc_from-full n pid t full) at e)))
      | inr (i, found) ↦
          let f = free_from-FirstFree t.buckets t.next_id probe_limit 0 i found in
          let step = alloc_from-found n pid t i found in
          let e' : ◌≡◌ {A = Option (ℕ × ℕ)} (some (t.next_id, i)) (some (p, idx)) =
            ap (λ r. r.0) (sym step) ∙ e in
          let same_id : t.next_id ≡ p = ground arith in
          let same : i ≡ idx = ground arith in
          subst (λ q. Created pid t q idx (alloc_from (suc n) pid t).1) same_id
            (subst (λ k. Created pid t t.next_id k (alloc_from (suc n) pid t).1) same
              (rw step (found-Created pid t i h f)))
    ]

-- When no round finds a bucket, the probe paths of all the ids tried are taken.
alloc_from-exhausted :
    (n pid m : ℕ) (t : PortTable)
    → t.next_id < max_ports
    → (alloc_from n pid t).0 ≡ none
    → m < n
    → m < max_ports
    → Taken t.buckets ((t.next_id + m) % max_ports) 0 probe_limit
alloc_from-exhausted zero pid m t h e lt small = absurd (omega arith)
alloc_from-exhausted (suc n) pid m t h e lt small =
    elim (Option-cases (free_from t.buckets t.next_id probe_limit 0)) [
      | inl full ↦ elim (ℕ_discrete m 0) [
        | yes first ↦
            let same : t.next_id ≡ (t.next_id + m) % max_ports = omega arith in
            subst (λ id. Taken t.buckets id 0 probe_limit) same
              (free_from-none t.buckets t.next_id probe_limit 0 full)
        | no later ↦
            let same : (bump t.next_id + (m - 1)) % max_ports ≡ (t.next_id + m) % max_ports =
              omega arith in
            subst (λ id. Taken t.buckets id 0 probe_limit) same
              (alloc_from-exhausted n pid (m - 1) (record t { next_id = bump t.next_id })
                (omega arith) (rw (alloc_from-full n pid t full) at e) (omega arith) (omega arith))
      ]
      | inr (i, found) ↦ absurd (cc (ap (λ r. r.0) (sym (alloc_from-found n pid t i found)) ∙ e))
    ]

pub create-Created :
    (pid : ℕ) (t : PortTable) {p : ℕ}
    → IsValid t
    → (create pid t).0 ≡ some p
    → (idx : ℕ) × Created pid t p idx (create pid t).1
unfolding create alloc
create-Created pid t {p} v e = go (alloc_from max_ports pid t).0 refl
  where
    go :
        (r : Option (ℕ × ℕ))
        → (alloc_from max_ports pid t).0 ≡ r
        → (idx : ℕ) × Created pid t p idx (alloc_from max_ports pid t).1
    go none c = absurd (ground arith)
    go (some (q, idx)) c =
        let same : q ≡ p = ground arith in
        (
          idx,
          alloc_from-Created max_ports pid t p idx v.next_in
              (subst (λ k. (alloc_from max_ports pid t).0 ≡ some (k, idx)) same c),
        )

create-eq_none :
    (pid : ℕ) (t : PortTable) → (create pid t).0 ≡ none → (alloc_from max_ports pid t).0 ≡ none
unfolding create alloc
create-eq_none pid t e = go (alloc_from max_ports pid t).0 refl
  where
    go :
        (r : Option (ℕ × ℕ))
        → (alloc_from max_ports pid t).0 ≡ r
        → (alloc_from max_ports pid t).0 ≡ none
    go none c = c
    go (some (q, idx)) c = absurd (ground arith)

-- `create` fails only when every one of the 4096 buckets is taken: its 65536 rounds reach them all.
create-none :
    (pid k : ℕ) (t : PortTable)
    → IsValid t
    → (create pid t).0 ≡ none
    → k < live_buckets
    → is_free (bucket t.buckets k) ≡ false
create-none pid k t v e h =
    let m = (k + max_ports - t.next_id) % max_ports in
    let id : (t.next_id + m) % max_ports ≡ k = omega (arith, v.next_in) in
    let here : probe k 0 ≡ k = omega arith in
    let path : Taken t.buckets k 0 probe_limit =
      subst (λ c. Taken t.buckets c 0 probe_limit) id
        (alloc_from-exhausted max_ports pid m t v.next_in (create-eq_none pid t e) (omega arith)
          (omega arith)) in
    subst (λ c. is_free (bucket t.buckets c) ≡ false) here (path 0 (omega arith) (omega arith))
