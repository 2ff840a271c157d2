-- ===== src/Sched/RunQueue/Slots.antt =====
-- The well-formed run queue of sched/src/runqueue.rs, and the operations that keep it so.
use cyanos.Base.{
  ℕ, zero, suc, ◌<◌, ◌≡◌, refl, sym, ap, none, some, [], ◌∷◌, arith, length, length-set,
  length-replicate, set, replicate, Option-cases, inl, inr, ◌≤◌, ltb, if◌then◌else◌,
}
use cyanos.Sched.Task.{Task}
use cyanos.Sched.RunQueue.{
  RunQueue, Slots, max_tasks, new, slot_at, insert_first, enqueue, remove, modify, modify_pid,
  modify_at, wake_all, unblock_port, change,
}

-- How many slots hold a task.
unfoldable pub occupied : Slots → ℕ
occupied [] = 0
occupied (none ∷ s) = occupied s
occupied (some t ∷ s) = suc (occupied s)

pub record IsValid (rq : RunQueue) : Type 0 where
  pub size : length rq.tasks ≡ max_tasks
  pub counted : rq.len ≡ occupied rq.tasks
  pub cursor_in : rq.cursor < max_tasks

occupied-replicate : (n : ℕ) → occupied (replicate n none) ≡ 0
unfolding occupied replicate
occupied-replicate zero = refl
occupied-replicate (suc n) = occupied-replicate n

pub new-IsValid : IsValid new
unfolding new
new-IsValid = record {
  size = length-replicate max_tasks none;
  counted = sym (occupied-replicate max_tasks);
  cursor_in = omega arith;
}

insert_first_lem :
    (t : Task) (s s' : Slots)
    → insert_first t s ≡ some s'
    → (length s' ≡ length s) × (occupied s' ≡ suc (occupied s))
unfolding insert_first occupied
insert_first_lem t [] s' e = absurd (cc)
insert_first_lem t (none ∷ s) s' e = ground arith
insert_first_lem t (some u ∷ s) [] e = ground arith
insert_first_lem t (some u ∷ s) (x ∷ s') e = ground (arith, insert_first_lem t s s')

insert_first-eq_none : (t : Task) (s : Slots) → insert_first t s ≡ none → occupied s ≡ length s
unfolding insert_first occupied
insert_first-eq_none t [] e = refl
insert_first-eq_none t (none ∷ s) e = absurd (cc)
insert_first-eq_none t (some u ∷ s) e = ground (arith, insert_first-eq_none t s)

occupied-le : (s : Slots) → occupied s ≤ length s
unfolding occupied
occupied-le [] = omega arith
occupied-le (none ∷ s) = omega (arith, occupied-le s)
occupied-le (some t ∷ s) = omega (arith, occupied-le s)

-- `enqueue` keeps the queue well formed; it succeeds exactly when fewer than 256 slots are taken, and
-- then counts one task more.
pub enqueue-IsValid :
    (t : Task) (rq : RunQueue)
    → IsValid rq
    → IsValid (enqueue t rq).1
      × ((enqueue t rq).0 ≡ ltb rq.len max_tasks)
      × ((enqueue t rq).1.len ≡ (if ltb rq.len max_tasks then suc rq.len else rq.len))
unfolding enqueue
enqueue-IsValid t rq v = elim (Option-cases (insert_first t rq.tasks)) [
  | inl e ↦ ground (arith, insert_first-eq_none t rq.tasks e)
  | inr (s, e) ↦ ground (arith, insert_first_lem t rq.tasks s e, occupied-le s)
]

-- Emptying a slot that holds a task takes one off the count.
occupied-set-none :
    (s : Slots) (i : ℕ) (t : Task)
    → slot_at s i ≡ some t
    → occupied s ≡ suc (occupied (set s i none))
unfolding occupied
occupied-set-none [] i t e = absurd (cc)
occupied-set-none (none ∷ s) zero t e = absurd (cc)
occupied-set-none (some u ∷ s) zero t e = refl
occupied-set-none (none ∷ s) (suc i) t e = occupied-set-none s i t e
occupied-set-none (some u ∷ s) (suc i) t e = ap suc (occupied-set-none s i t e)

-- `remove` keeps the queue well formed.
remove-IsValid : (i : ℕ) (rq : RunQueue) → IsValid rq → IsValid (remove i rq).1
unfolding remove
remove-IsValid i rq v = elim (Option-cases (slot_at rq.tasks i)) [
  | inl e ↦ ground arith
  | inr (t, e) ↦ ground (arith, occupied-set-none rq.tasks i t e, length-set rq.tasks i none)
]

occupied-modify :
    (pid : ℕ) (f : Task → Task) (s : Slots)
    → (occupied (modify pid f s) ≡ occupied s) × (length (modify pid f s) ≡ length s)
unfolding modify occupied
occupied-modify pid f [] = (refl, refl)
occupied-modify pid f (none ∷ s) = ground (arith, occupied-modify pid f s)
occupied-modify pid f (some t ∷ s) = ground (arith, occupied-modify pid f s)

-- So does every change of one task.
pub modify_pid-IsValid :
    (pid : ℕ) (f : Task → Task) (rq : RunQueue) → IsValid rq → IsValid (modify_pid pid f rq)
unfolding modify_pid
modify_pid-IsValid pid f rq v = ground (arith, occupied-modify pid f rq.tasks)

occupied-set-change :
    (s : Slots) (i : ℕ) (f : Task → Task) → occupied (set s i (change f (slot_at s i))) ≡ occupied s
unfolding occupied
occupied-set-change [] i f = refl
occupied-set-change (none ∷ s) zero f = refl
occupied-set-change (some u ∷ s) zero f = refl
occupied-set-change (none ∷ s) (suc i) f = occupied-set-change s i f
occupied-set-change (some u ∷ s) (suc i) f = ap suc (occupied-set-change s i f)

pub modify_at-IsValid :
    (i : ℕ) (f : Task → Task) (rq : RunQueue) → IsValid rq → IsValid (modify_at i f rq)
unfolding modify_at
modify_at-IsValid i f rq v =
    ground (
      arith,
      occupied-set-change rq.tasks i f,
      length-set rq.tasks i (change f (slot_at rq.tasks i)),
    )

occupied-wake_all :
    (port : ℕ) (s : Slots)
    → (occupied (wake_all port s) ≡ occupied s) × (length (wake_all port s) ≡ length s)
unfolding wake_all occupied
occupied-wake_all port [] = (refl, refl)
occupied-wake_all port (none ∷ s) = ground (arith, occupied-wake_all port s)
occupied-wake_all port (some t ∷ s) = ground (arith, occupied-wake_all port s)

-- And waking the tasks of a port.
unblock_port-IsValid : (port : ℕ) (rq : RunQueue) → IsValid rq → IsValid (unblock_port port rq)
unfolding unblock_port
unblock_port-IsValid port rq v = ground (arith, occupied-wake_all port rq.tasks)
