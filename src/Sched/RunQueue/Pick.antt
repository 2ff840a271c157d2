-- ===== src/Sched/RunQueue/Pick.antt =====
-- Which task `pick_next` of sched/src/runqueue.rs chooses.
use cyanos.Base.{
  ℕ, zero, suc, ◌+◌, ◌-◌, ◌%◌, ◌≤◌, ◌<◌, ◌≡◌, ap, ◌∙◌, true, none, some, arith, inl, inr,
  Bool-cases, Option-cases, dec_lt, subst, ℕ_discrete, ==_true, sym, ==_false, refl, [], ◌∷◌,
  Option,
}
use cyanos.Sched.RunQueue.Slots.{IsValid, occupied}
use cyanos.Sched.RunQueue.{
  Slots, max_tasks, slot_at, slot_is_ready, scan_ready, search_ready, pick_next, RunQueue,
}

abbrev pub ReadyAt : Slots → ℕ → Type 0
ReadyAt s i = slot_is_ready (slot_at s i) ≡ true

-- What a scan of `n` slots from `i` on finds: the first ready one, or none if none is ready.
record Found (s : Slots) (n i j : ℕ) : Type 0 where
  from : i ≤ j
  upto : j < i + n
  ready : ReadyAt s j
  first : (k : ℕ) → i ≤ k → k < j → ¬ ReadyAt s k

scan_ready-none :
    (s : Slots) (n i : ℕ) → scan_ready s n i ≡ none → (k : ℕ) → i ≤ k → k < i + n → ¬ ReadyAt s k
unfolding scan_ready
scan_ready-none s zero i e k a b r = absurd (omega arith)
scan_ready-none s (suc n) i e k a b r = elim (Bool-cases (slot_is_ready (slot_at s i))) [
  | inl here ↦ absurd (ground arith)
  | inr skip ↦ elim (ℕ_discrete k i) [
    | yes same ↦ absurd (ground arith)
    | no other ↦ scan_ready-none s n (i + 1) (ground arith) k (omega arith) (omega arith) r
  ]
]

scan_ready-Found : (s : Slots) (n i j : ℕ) → scan_ready s n i ≡ some j → Found s n i j
unfolding scan_ready
scan_ready-Found s zero i j e = absurd (cc)
scan_ready-Found s (suc n) i j e = elim (Bool-cases (slot_is_ready (slot_at s i))) [
  | inl here ↦
      let same : i ≡ j = ground arith in
      record {
        from = omega arith;
        upto = omega arith;
        ready = subst (ReadyAt s) same here;
        first = λ k a b. absurd (omega arith);
      }
  | inr skip ↦
      let f = scan_ready-Found s n (i + 1) j (ground arith) in
      record {
        from = omega (arith, f.from);
        upto = omega (arith, f.upto);
        ready = f.ready;
        first = λ k a b. elim (ℕ_discrete k i) [
          | yes same ↦ λ r. ground arith
          | no other ↦ f.first k (omega arith) b
        ];
      }
]

-- How far slot `i` lies ahead of the cursor, going round.
unfoldable pub distance : ℕ → ℕ → ℕ
distance cursor i = (i + max_tasks - cursor) % max_tasks

-- The slot that a search from the cursor finds is ready, and none before it is, going round.
pub record Chosen (s : Slots) (cursor j : ℕ) : Type 0 where
  pub in_range : j < max_tasks
  pub ready : ReadyAt s j
  pub nearest : (k : ℕ) → k < max_tasks → distance cursor k < distance cursor j → ¬ ReadyAt s k

search_ready-Chosen :
    (s : Slots) (cursor j : ℕ)
    → cursor < max_tasks
    → search_ready s cursor ≡ some j
    → Chosen s cursor j
unfolding search_ready distance
search_ready-Chosen s cursor j h e =
    elim (Option-cases (scan_ready s (max_tasks - cursor) cursor)) [
      | inl ahead ↦
          let f = scan_ready-Found s cursor 0 j (ground arith) in
          let past = scan_ready-none s (max_tasks - cursor) cursor ahead in
          record {
            in_range = omega (arith, f.upto);
            ready = f.ready;
            nearest = λ k hk closer. elim (dec_lt k cursor) [
              | yes p ↦ f.first k (omega arith) (omega (arith, f.upto))
              | no p ↦ past k (omega arith) (omega arith)
            ];
          }
      | inr (i, found) ↦
          let same : i ≡ j = ground arith in
          let f = scan_ready-Found s (max_tasks - cursor) cursor j (found ∙ ap some same) in
          record {
            in_range = omega (arith, f.upto);
            ready = f.ready;
            nearest = λ k hk closer. elim (dec_lt k cursor) [
              | yes p ↦ absurd (omega (arith, f.from, f.upto))
              | no p ↦ f.first k (omega arith) (omega (arith, f.upto, f.from))
            ];
          }
    ]

search_ready-none :
    (s : Slots) (cursor : ℕ)
    → cursor < max_tasks
    → search_ready s cursor ≡ none
    → (k : ℕ) → k < max_tasks
    → ¬ ReadyAt s k
unfolding search_ready
search_ready-none s cursor h e k hk =
    elim (Option-cases (scan_ready s (max_tasks - cursor) cursor)) [
      | inl ahead ↦ elim (dec_lt k cursor) [
        | yes p ↦ scan_ready-none s cursor 0 (ground arith) k (omega arith) (omega arith)
        | no p ↦ scan_ready-none s (max_tasks - cursor) cursor ahead k (omega arith) (omega arith)
      ]
      | inr (i, found) ↦ absurd (ground arith)
    ]

unoccupied : (s : Slots) → occupied s ≡ 0 → (k : ℕ) → ¬ ReadyAt s k
unfolding occupied
unoccupied [] e k r = cc
unoccupied (none ∷ s) e zero r = cc
unoccupied (none ∷ s) e (suc k) r = unoccupied s e k r
unoccupied (some t ∷ s) e k r = absurd (omega arith)

pub pick_next_cases :
    (rq : RunQueue)
    → IsValid rq
    → ((j : ℕ)
        → (pick_next rq).0 ≡ some j
        → Chosen rq.tasks rq.cursor j
          × ((pick_next rq).1 ≡ record rq { cursor = (j + 1) % max_tasks }))
      × ((pick_next rq).0 ≡ none
          → ((k : ℕ) → k < max_tasks → ¬ ReadyAt rq.tasks k) × ((pick_next rq).1 ≡ rq))
unfolding pick_next
pick_next_cases rq v = elim (ℕ_discrete rq.len 0) [
  | yes e ↦
      rw (==_true rq.len 0 e)
        (λ j c. absurd (cc), λ _. (λ k _. unoccupied rq.tasks (sym v.counted ∙ e) k, refl))
  | no ne ↦ rw (==_false rq.len 0 ne) (elim (Option-cases (search_ready rq.tasks rq.cursor)) [
    | inl e ↦
        rw (e, pick_next)
          (λ j c. absurd (cc), λ _. (search_ready-none rq.tasks rq.cursor v.cursor_in e, refl))
    | inr (i, e) ↦
        rw (e, pick_next)
          (
            λ j c.
                let same : i ≡ j = cc in
                (
                  search_ready-Chosen rq.tasks rq.cursor j v.cursor_in (e ∙ ap some same),
                  ap (λ t. record rq { cursor = (t + 1) % max_tasks }) same,
                ),
            λ c. absurd (cc),
          )
  ])
]

-- What a pick from the queue may be.
abbrev pub Picked : RunQueue → Option ℕ × RunQueue → Type 0
Picked rq (none, rq') = ((k : ℕ) → k < max_tasks → ¬ ReadyAt rq.tasks k) × (rq' ≡ rq)
Picked rq (some j, rq') =
    Chosen rq.tasks rq.cursor j × (rq' ≡ record rq { cursor = (j + 1) % max_tasks })

-- On a well-formed queue `pick_next` returns the ready task that comes first from the cursor on,
-- going round the 256 slots, and moves the cursor behind it; or it returns none, no task is ready,
-- and nothing changes.
pub pick_next_lem : (rq : RunQueue) → IsValid rq → Picked rq (pick_next rq)
pick_next_lem rq v = by_result (pick_next rq).0 (pick_next rq).1 (pick_next_cases rq v)
  where
    by_result :
        (o : Option ℕ) (rq' : RunQueue)
        → ((j : ℕ)
            → o ≡ some j
            → Chosen rq.tasks rq.cursor j × (rq' ≡ record rq { cursor = (j + 1) % max_tasks }))
          × (o ≡ none → ((k : ℕ) → k < max_tasks → ¬ ReadyAt rq.tasks k) × (rq' ≡ rq))
        → Picked rq (o, rq')
    by_result none rq' c = c.1 refl
    by_result (some j) rq' c = c.0 j refl
