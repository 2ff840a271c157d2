-- ===== src/Sched/RunQueue/Lookup.antt =====
-- The lookups by pid of sched/src/runqueue.rs agree, and a change of one task is seen by them.
use cyanos.Base.{
  ℕ, zero, suc, ◌≡◌, refl, true, Option, none, some, [], ◌∷◌, arith, ◌==◌, if◌then◌else◌,
  Option-cases, set, inl, ap, inr, sym,
}
use mathlib.Core.Option
use cyanos.Sched.Task.{Task}
use cyanos.Sched.RunQueue.{
  RunQueue, Slots, slot_at, find_task, find_pid, position_pid, find_pid_idx, modify, modify_pid,
  insert_first, enqueue, modify_at, change,
}

abbrev task_at : Slots → Option ℕ → Option Task
task_at s none = none
task_at s (some i) = slot_at s i

find_task-position : (pid : ℕ) (s : Slots) → find_task pid s ≡ task_at s (position_pid pid s)
unfolding find_task position_pid
find_task-position pid [] = refl
find_task-position pid (none ∷ s) = ground (arith, find_task-position pid s)
find_task-position pid (some t ∷ s) = ground (arith, find_task-position pid s)

-- The slot that `find_pid_idx` names holds the task that `find_pid` returns, and one finds a task
-- exactly when the other does.
find_pid-find_pid_idx :
    (pid : ℕ) (rq : RunQueue) → find_pid pid rq ≡ task_at rq.tasks (find_pid_idx pid rq)
unfolding find_pid find_pid_idx
find_pid-find_pid_idx pid rq = find_task-position pid rq.tasks

modify-position :
    (pid : ℕ) (f : Task → Task) (s : Slots) (i : ℕ)
    → position_pid pid s ≡ some i
    → set s i (change f (slot_at s i)) ≡ modify pid f s
unfolding modify position_pid
modify-position pid f [] i e = absurd (cc)
modify-position pid f (none ∷ s) zero e = absurd (ground arith)
modify-position pid f (some t ∷ s) zero e = ground arith
modify-position pid f (none ∷ s) (suc i) e = ground (arith, modify-position pid f s i)
modify-position pid f (some t ∷ s) (suc i) e = ground (arith, modify-position pid f s i)

modify-missing :
    (pid : ℕ) (f : Task → Task) (s : Slots) → position_pid pid s ≡ none → modify pid f s ≡ s
unfolding modify position_pid
modify-missing pid f [] e = refl
modify-missing pid f (none ∷ s) e = ground (arith, modify-missing pid f s)
modify-missing pid f (some t ∷ s) e = ground (arith, modify-missing pid f s)

abbrev through_index : (Task → Task) → RunQueue → Option ℕ → RunQueue
through_index f rq none = rq
through_index f rq (some i) = modify_at i f rq

-- The source changes a task by `find_pid_mut(pid)`, or by `get_mut` at the index from
-- `find_pid_idx(pid)`: both change the same task alike, and nothing if no task has the pid.
pub modify_pid-find_pid_idx :
    (pid : ℕ) (f : Task → Task) (rq : RunQueue)
    → modify_pid pid f rq ≡ through_index f rq (find_pid_idx pid rq)
unfolding modify_pid modify_at find_pid_idx
modify_pid-find_pid_idx pid f rq = elim (Option-cases (position_pid pid rq.tasks)) [
  | inl e ↦
      rw (e, through_index) (ap (λ s. record rq { tasks = s }) (modify-missing pid f rq.tasks e))
  | inr (i, e) ↦
      rw (e, through_index)
        (ap (λ s. record rq { tasks = s }) (sym (modify-position pid f rq.tasks i e)))
]

-- A change through `find_pid_mut` is what `find_pid` sees next, and no other pid sees it, if it
-- keeps the pid.
find_task-modify :
    (pid other : ℕ) (f : Task → Task) (s : Slots)
    → ((t : Task) → (f t).pid ≡ t.pid)
    → find_task other (modify pid f s)
      ≡ (if pid == other then Option.map f (find_task pid s) else find_task other s)
unfolding find_task modify
find_task-modify pid other f [] keep = ground arith
find_task-modify pid other f (none ∷ s) keep = find_task-modify pid other f s keep
find_task-modify pid other f (some t ∷ s) keep =
    ground (arith, keep t, find_task-modify pid other f s keep)

-- A change through `find_pid_mut` that keeps the pid is what `find_pid` of that pid sees next, and
-- `find_pid` of any other pid does not see it.
pub find_pid-modify_pid :
    (pid other : ℕ) (f : Task → Task) (rq : RunQueue)
    → ((t : Task) → (f t).pid ≡ t.pid)
    → find_pid other (modify_pid pid f rq)
      ≡ (if pid == other then Option.map f (find_pid pid rq) else find_pid other rq)
unfolding find_pid modify_pid
find_pid-modify_pid pid other f rq keep = find_task-modify pid other f rq.tasks keep

find_task-insert_first :
    (t : Task) (pid : ℕ) (s s' : Slots)
    → insert_first t s ≡ some s'
    → find_task t.pid s ≡ none
    → find_task pid s' ≡ (if t.pid == pid then some t else find_task pid s)
unfolding insert_first find_task
find_task-insert_first t pid [] s' e new = absurd (cc)
find_task-insert_first t pid (none ∷ s) [] e new = absurd (cc)
find_task-insert_first t pid (none ∷ s) (x ∷ s') e new = ground (arith)
find_task-insert_first t pid (some u ∷ s) [] e new = absurd (ground arith)
find_task-insert_first t pid (some u ∷ s) (x ∷ s') e new =
    ground (arith, find_task-insert_first t pid s s')

-- A task that `enqueue` accepts under a pid not in use is found by that pid, and the others as
-- before.
find_pid-enqueue :
    (t : Task) (pid : ℕ) (rq : RunQueue)
    → find_pid t.pid rq ≡ none
    → (enqueue t rq).0 ≡ true
    → find_pid pid (enqueue t rq).1 ≡ (if t.pid == pid then some t else find_pid pid rq)
unfolding find_pid enqueue
find_pid-enqueue t pid rq new e = elim (Option-cases (insert_first t rq.tasks)) [
  | inl full ↦ absurd (ground arith)
  | inr (s, room) ↦ rw (room, enqueue) (find_task-insert_first t pid rq.tasks s room new)
]
