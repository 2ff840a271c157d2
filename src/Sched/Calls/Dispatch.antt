-- ===== src/Sched/Calls/Dispatch.antt =====
-- One turn of the scheduler's loop in sched/src/lib.rs.
use cyanos.Base.{
  ℕ, zero, suc, ◌+◌, ◌%◌, ◌<◌, ◌≡◌, refl, ap, ◌≢◌, inl, inr, true, Option, none, some, [], ◌∷◌,
  arith, Option-cases, set, ◌∙◌, ap₂, sym, subst, false, if◌then◌else◌, set-set,
}
use cyanos.Sched.Task.{Task, TaskState, is_running, is_zombie, is_ready}
use cyanos.Sched.RunQueue
use cyanos.Sched.RunQueue.{
  RunQueue, Slots, slot_at, modify_at, change, max_tasks, slot_is_ready, pick_next,
}
use cyanos.Sched.RunQueue.Slots.{IsValid}
use cyanos.Sched.RunQueue.Pick.{ReadyAt, Chosen, pick_next_cases}
use cyanos.Mm.Buddy
use cyanos.Mm.Buddy.{Buddy}
use cyanos.Sched.Calls.Exits.{HasLog, get_exit_code-log_exit_self}
use cyanos.Sched.Calls.{Sched, log_exit, get_exit_code}
use cyanos.Sched.Calls.Loop.{dispatch, switch_back, put_back}

slot_at-set_self :
    (s : Slots) (i : ℕ) (t u : Task) → slot_at s i ≡ some t → slot_at (set s i (some u)) i ≡ some u
slot_at-set_self [] i t u e = absurd (cc)
slot_at-set_self (x ∷ s) zero t u e = refl
slot_at-set_self (x ∷ s) (suc i) t u e = slot_at-set_self s i t u e

slot_at-set_ne :
    (s : Slots) (i k : ℕ) (u : Option Task) → i ≢ k → slot_at (set s i u) k ≡ slot_at s k
slot_at-set_ne [] i k u h = refl
slot_at-set_ne (x ∷ s) zero zero u h = absurd (h refl)
slot_at-set_ne (x ∷ s) zero (suc k) u h = refl
slot_at-set_ne (x ∷ s) (suc i) zero u h = refl
slot_at-set_ne (x ∷ s) (suc i) (suc k) u h = slot_at-set_ne s i k u (λ e. h (ap suc e))

is_ready_lem : (st : TaskState) → is_ready st ≡ true → st ≡ TaskState.ready
is_ready_lem TaskState.ready h = refl
is_ready_lem TaskState.running h = absurd (cc)
is_ready_lem TaskState.blocked h = absurd (cc)
is_ready_lem TaskState.zombie h = absurd (cc)

ready_task :
    (s : Slots) (i : ℕ)
    → ReadyAt s i
    → (t : Task) × (slot_at s i ≡ some t) × (t.state ≡ TaskState.ready)
ready_task s i r = elim (Option-cases (slot_at s i)) [
  | inl e ↦ absurd (ground arith)
  | inr (t, e) ↦ (t, e, ready t (rw (e) at r))
]
  where
    ready : (t : Task) → slot_is_ready (some t) ≡ true → t.state ≡ TaskState.ready
    ready t h = is_ready_lem t.state h

abbrev pub running : Task → Task
running t = record t { state = TaskState.running }

-- What a turn may start.
abbrev pub Dispatched : Sched → Option ℕ × Sched → Type 0
Dispatched s (none, s') = ((k : ℕ) → k < max_tasks → ¬ ReadyAt s.run_queue.tasks k) × (s' ≡ s)
Dispatched s (some i, s') =
    (t : Task) × Chosen s.run_queue.tasks s.run_queue.cursor i
    × (slot_at s.run_queue.tasks i ≡ some t)
    × (t.state ≡ TaskState.ready)
    × (s'.current_pid ≡ t.pid)
    × (s'.run_queue.tasks ≡ set s.run_queue.tasks i (some (running t)))
    × (s'.run_queue.cursor ≡ (i + 1) % max_tasks)

-- On a well-formed run queue, a turn of the scheduler starts the ready task that comes first from
-- the cursor on: it alone changes, to running, and it is the current task; if no task is ready,
-- nothing changes.
pub dispatch_lem : (s : Sched) → IsValid s.run_queue → Dispatched s (dispatch s)
unfolding dispatch modify_at
dispatch_lem s v = elim (Option-cases (pick_next s.run_queue).0) [
  | inl e ↦
      let (idle, same) = (pick_next_cases s.run_queue v).1 e in
      rw (e, dispatch) (idle, ap (λ q. record s { run_queue = q }) same)
  | inr (i, e) ↦
      let (chosen, moved) = (pick_next_cases s.run_queue v).0 i e in
      let (t, here, ready) = ready_task s.run_queue.tasks i chosen.ready in
      let there : slot_at (pick_next s.run_queue).1.tasks i ≡ some t =
        ap (λ q. slot_at q.tasks i) moved ∙ here in
      rw (e, dispatch)
        (rw (there) (
          t,
          chosen,
          here,
          ready,
          refl,
          ap₂ (λ q u. set q.tasks i (change (λ x. record x { state = TaskState.running }) u)) moved
              there,
          ap (λ q. q.cursor) moved,
        ))
]

slot_at-set-none : (s : Slots) (i : ℕ) → slot_at (set s i none) i ≡ none
slot_at-set-none [] i = refl
slot_at-set-none (x ∷ s) zero = refl
slot_at-set-none (x ∷ s) (suc i) = slot_at-set-none s i

-- A slot that is removed is empty.
slot_at-remove :
    (i : ℕ) (rq : RunQueue) (t : Task)
    → slot_at rq.tasks i ≡ some t
    → slot_at (RunQueue.remove i rq).1.tasks i ≡ none
unfolding RunQueue.remove
slot_at-remove i rq t e = rw (e, RunQueue.remove) (slot_at-set-none rq.tasks i)

set-slot_at : (s : Slots) (i : ℕ) (t : Task) → slot_at s i ≡ some t → set s i (some t) ≡ s
set-slot_at [] i t e = refl
set-slot_at (x ∷ s) zero t e = ap (λ y. y ∷ s) (sym e)
set-slot_at (x ∷ s) (suc i) t e = ap (λ r. x ∷ r) (set-slot_at s i t e)

put_back-running : (t : Task) → t.state ≡ TaskState.ready → put_back (running t) ≡ t
put_back-running t e = ap (λ st. record t { state = st }) (sym e)

put_back-zombie : (t : Task) → t.state ≡ TaskState.zombie → put_back t ≡ t
put_back-zombie t e =
    ap (λ st. record t { state = st })
      (ap (λ st. if is_running st then TaskState.ready else st) e ∙ sym e)

module _ {ℓ} {H : Type ℓ} (hook : ℕ → H → H) where
  -- From a well-formed run queue, a task that is started and comes back still running, with no other
  -- change between, leaves the slots of the run queue as they were before the turn, and no task is
  -- current.
  switch_back-dispatch :
      (i : ℕ) (s : Sched) (b : Buddy) (h : H)
      → IsValid s.run_queue
      → (dispatch s).0 ≡ some i
      → (s' : Sched) × (switch_back hook i (dispatch s).1 b h ≡ some (s', b, h))
        × (s'.run_queue.tasks ≡ s.run_queue.tasks)
        × (s'.current_pid ≡ 0)
  unfolding switch_back modify_at
  switch_back-dispatch i s b h v e =
      let (t, chosen, here, ready, current, tasks, cursor) =
        subst (λ o. Dispatched s (o, (dispatch s).1)) e (dispatch_lem s v) in
      let before : slot_at (dispatch s).1.run_queue.tasks i ≡ some (running t) =
        ap (λ q. slot_at q i) tasks ∙ slot_at-set_self s.run_queue.tasks i t (running t) here in
      let put : change put_back (slot_at (dispatch s).1.run_queue.tasks i) ≡ some t =
        ap (change put_back) before ∙ ap some (put_back-running t ready) in
      let slots : set (dispatch s).1.run_queue.tasks i
            (change put_back (slot_at (dispatch s).1.run_queue.tasks i))
          ≡ s.run_queue.tasks =
        ap₂ (λ q u. set q i u) tasks put
        ∙ set-set s.run_queue.tasks i (some (running t)) (some t)
        ∙ set-slot_at s.run_queue.tasks i t here in
      let now = ap (λ q. slot_at q i) slots ∙ here in
      let alive : is_zombie t.state ≡ false = ap is_zombie ready in
      (
        record (dispatch s).1 {
          run_queue = modify_at i put_back (dispatch s).1.run_queue;
          current_pid = 0;
        },
        rw (switch_back, now, alive) refl,
        slots,
        refl,
      )

  -- A task that comes back as a zombie is reaped, if the page allocator does not panic and the log
  -- has its size: its slot is empty, its stack is given back, the hook has run for it, and the log
  -- knows its exit code if it did not know the pid before.
  switch_back_reaps :
      (i : ℕ) (t : Task) (s : Sched) (b b' : Buddy) (h : H)
      → slot_at s.run_queue.tasks i ≡ some t
      → t.state ≡ TaskState.zombie
      → Buddy.free t.kernel_stack 4 b ≡ some b'
      → HasLog s
      → get_exit_code t.pid s ≡ none
      → (s' : Sched) × (switch_back hook i s b h ≡ some (s', b', hook t.pid h))
        × (slot_at s'.run_queue.tasks i ≡ none)
        × (get_exit_code t.pid s' ≡ some t.exit_code)
  unfolding switch_back modify_at get_exit_code
  switch_back_reaps i t s b b' h here z freed (size, inside) new =
      let put : change put_back (slot_at s.run_queue.tasks i) ≡ some t =
        ap (change put_back) here ∙ ap some (put_back-zombie t z) in
      let now : slot_at (set s.run_queue.tasks i (change put_back (slot_at s.run_queue.tasks i))) i
          ≡ some t =
        ap (λ u. slot_at (set s.run_queue.tasks i u) i) put
        ∙ slot_at-set_self s.run_queue.tasks i t t here in
      let dead : is_zombie t.state ≡ true = ap is_zombie z in
      let rq = modify_at i put_back s.run_queue in
      let s' : Sched = record s { run_queue = (RunQueue.remove i rq).1; current_pid = 0 } in
      let gone : slot_at (RunQueue.remove i rq).1.tasks i ≡ none = slot_at-remove i rq t now in
      (
        log_exit t.pid t.exit_code s',
        rw (switch_back, now, dead, freed) refl,
        gone,
        get_exit_code-log_exit_self t.pid t.exit_code s' (size, inside) new,
      )
