-- ===== src/Ipc/Port/Owner.antt =====
-- Who owns a port that `create` of ipc/src/port.rs returns, and what it leaves alone.
use cyanos.Base.{
  ℕ, zero, suc, ◌+◌, ◌≤◌, ◌<◌, ◌≡◌, refl, ap, subst, ◌∙◌, ◌≢◌, true, false, none, some, List, arith,
  ℕ_discrete, ◌==◌, ==_true, ==_false, sym, [],
}
use cyanos.Ipc.Port.{
  PortEntry, PortTable, bucket, probe, is_free, find_from, find, live_buckets, probe_limit,
  empty_id, max_ports, claim, create, is_owner,
}
use cyanos.Ipc.Port.Probe.{PassedOver, find_iff}
use cyanos.Ipc.Port.Table.{
  IsValid, bucket-set_self, bucket-set_ne, probe-lt, set-IsValid, claim-HasMessages,
}
use cyanos.Ipc.Port.Create.{Created, Taken, create-Created}

-- A lookup that finds nothing passed over every taken bucket in front.
find_from-misses :
    (bs : List PortEntry) (port n i k : ℕ)
    → find_from bs port n i ≡ none
    → Taken bs port i k
    → k ≤ i + n
    → (m : ℕ) → i ≤ m
    → m < k
    → (bucket bs (probe port m)).id ≢ port
unfolding find_from
find_from-misses bs port zero i k e taken h m a b hit = absurd (omega arith)
find_from-misses bs port (suc n) i k e taken h m a b hit =
    let full = taken i (omega arith) (omega arith) in
    elim (ℕ_discrete (bucket bs (probe port i)).id port) [
      | yes found ↦ absurd (ground arith)
      | no miss ↦ elim (ℕ_discrete m i) [
        | yes same ↦ miss (subst (λ t. (bucket bs (probe port t)).id ≡ port) same hit)
        | no later ↦
            find_from-misses bs port n (i + 1) k (ground arith) (λ c p q. taken c (omega arith) q)
              (omega arith) m (omega arith) b hit
      ]
    ]

find-misses :
    (port k : ℕ) (t : PortTable)
    → find port t ≡ none
    → Taken t.buckets port 0 k
    → k ≤ probe_limit
    → PassedOver t.buckets port 0 k
unfolding find
find-misses port k t e taken h m a b =
    (taken m a b, find_from-misses t.buckets port probe_limit 0 k e taken h m a b)

taken_id : (p : ℕ) → p < max_ports → (p == empty_id) ≡ false
taken_id p h = ==_false p empty_id (omega arith)

module _ {pid : ℕ} {t : PortTable} {p idx : ℕ} {t' : PortTable} (v : IsValid t)
    (c : Created pid t p idx t') where
  claimed_in : idx < live_buckets
  claimed_in = omega (arith, c.at, probe-lt p c.step)

  claimed : bucket t'.buckets idx ≡ claim p pid (bucket t.buckets idx)
  claimed =
      ap (λ bs. bucket bs idx) c.written
      ∙ bucket-set_self t.buckets idx (claim p pid (bucket t.buckets idx)) v.size claimed_in

  unclaimed : (k : ℕ) → idx ≢ k → bucket t'.buckets k ≡ bucket t.buckets k
  unclaimed k ne =
      ap (λ bs. bucket bs k) c.written
      ∙ bucket-set_ne t.buckets idx k (claim p pid (bucket t.buckets idx)) ne

  -- The claimed bucket was free, so no taken bucket is written.
  taken_kept :
      (k : ℕ) → is_free (bucket t.buckets k) ≡ false → bucket t'.buckets k ≡ bucket t.buckets k
  taken_kept k full =
      unclaimed k λ same. cc (subst (λ j. is_free (bucket t.buckets j) ≡ true) same c.was_free)

  Created-keeps :
      (q j : ℕ)
      → find q t ≡ some j
      → (find q t' ≡ some j) × (bucket t'.buckets j ≡ bucket t.buckets j)
  Created-keeps q j e =
      let l = (find_iff q j t).0 e in
      let same = taken_kept j l.taken in
      (
        (find_iff q j t').1 (record {
          step = l.step;
          from = l.from;
          upto = l.upto;
          at = l.at;
          taken = rw same l.taken;
          is_port = rw same l.is_port;
          before = λ m a b.
              let (full, miss) = l.before m a b in rw (taken_kept (probe q m) full) (full, miss);
        }),
        same,
      )

  Created-finds : find p t ≡ none → (find p t' ≡ some idx) × (is_owner p pid t' ≡ true)
  unfolding is_owner
  Created-finds e =
      let missed = find-misses p c.step t e c.before (omega (arith, c.upto)) in
      let f : find p t' ≡ some idx = (find_iff p idx t').1 (record {
        step = c.step;
        from = omega arith;
        upto = c.upto;
        at = c.at;
        taken = rw claimed (taken_id p c.id_in);
        is_port = rw claimed refl;
        before = λ m a b.
            let (full, miss) = missed m a b in rw (taken_kept (probe p m) full) (full, miss);
      }) in
      (f, rw (f, is_owner, claimed) (==_true pid pid refl))

  Created-duplicate :
      (j : ℕ) → find p t ≡ some j → (bucket t.buckets j).owner_pid ≢ pid → is_owner p pid t' ≡ false
  unfolding is_owner
  Created-duplicate j e other =
      let (f, same) = Created-keeps p j e in rw (f, is_owner, same) (==_false _ _ other)

-- On a well-formed table, a new port whose number was not in use is found, and its creator owns it.
is_owner-create :
    (pid p : ℕ) (t : PortTable)
    → IsValid t
    → (create pid t).0 ≡ some p
    → find p t ≡ none
    → is_owner p pid (create pid t).1 ≡ true
is_owner-create pid p t v e new =
    let (idx, c) = create-Created pid t v e in (Created-finds v c new).1

-- On a well-formed table, creating a port moves and changes no port that can be found, whatever the
-- numbers are.
find-create :
    (pid p q j : ℕ) (t : PortTable)
    → IsValid t
    → (create pid t).0 ≡ some p
    → find q t ≡ some j
    → (find q (create pid t).1 ≡ some j) × (bucket (create pid t).1.buckets j ≡ bucket t.buckets j)
find-create pid p q j t v e f = let (idx, c) = create-Created pid t v e in Created-keeps v c q j f

-- On a well-formed table, the numbers of ports are reused without a look at those in use: when the
-- number that `create` returns belongs to a live port of another process, the creator does not own
-- what it is given.
is_owner-create_duplicate :
    (pid p j : ℕ) (t : PortTable)
    → IsValid t
    → (create pid t).0 ≡ some p
    → find p t ≡ some j
    → (bucket t.buckets j).owner_pid ≢ pid
    → is_owner p pid (create pid t).1 ≡ false
is_owner-create_duplicate pid p j t v e f other =
    let (idx, c) = create-Created pid t v e in Created-duplicate v c j f other

-- A successful `create` keeps the table well formed.
create-IsValid :
    (pid p : ℕ) (t : PortTable) → IsValid t → (create pid t).0 ≡ some p → IsValid (create pid t).1
create-IsValid pid p t v e =
    let (idx, c) = create-Created pid t v e in
    let (q, w) = v.queues idx in
    subst (λ bs. IsValid (record { buckets = bs; next_id = (create pid t).1.next_id }))
      (sym c.written)
      (set-IsValid t idx (create pid t).1.next_id (claim p pid (bucket t.buckets idx)) [] v
        (omega (arith, c.at, probe-lt p c.step)) c.next_in
        (claim-HasMessages p pid (bucket t.buckets idx) w))
