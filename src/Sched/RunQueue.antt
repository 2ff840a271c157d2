-- ===== src/Sched/RunQueue.antt =====
-- sched/src/runqueue.rs: a fixed array of task slots, its count, and the round-robin cursor.
pub mod Slots
pub mod Pick
pub mod Fair
pub mod Lookup
pub mod Wake
use cyanos.Base.{
  ℕ, zero, suc, ◌+◌, ◌-◌, ◌%◌, Bool, true, false, ◌&&◌, Option, none, some, List, [], ◌∷◌, ◌==◌,
  if◌then◌else◌, set, replicate,
}
use cyanos.Sched.Task.{Task, TaskState, is_ready, is_blocked}

abbrev pub max_tasks : ℕ
max_tasks = 256

abbrev pub Slots : Type 0
Slots = List (Option Task)

pub record RunQueue : Type 0 where
  pub tasks : Slots
  pub len : ℕ
  pub cursor : ℕ

unfoldable pub new : RunQueue
new = record { tasks = replicate max_tasks none; len = 0; cursor = 0 }

-- The first free slot takes the task; `none` if there is no free slot.
unfoldable pub insert_first : Task → Slots → Option Slots
insert_first t [] = none
insert_first t (none ∷ s) = some (some t ∷ s)
insert_first t (some u ∷ s) = elim (insert_first t s) [ none ↦ none | some s' ↦ some (some u ∷ s') ]

unfoldable pub enqueue : Task → RunQueue → Bool × RunQueue
enqueue t rq = elim (insert_first t rq.tasks) [
  | none ↦ (false, rq)
  | some s ↦ (true, record rq { tasks = s; len = rq.len + 1 })
]

abbrev pub slot_is_ready : Option Task → Bool
slot_is_ready none = false
slot_is_ready (some t) = is_ready t.state

-- `tasks[i]`, with an empty slot past the end.
abbrev pub slot_at : Slots → ℕ → Option Task
slot_at [] i = none
slot_at (s ∷ slots) zero = s
slot_at (s ∷ slots) (suc i) = slot_at slots i

-- The first of the `n` slots from index `i` on that holds a ready task.
unfoldable pub scan_ready : Slots → ℕ → ℕ → Option ℕ
scan_ready slots zero i = none
scan_ready slots (suc n) i =
    let rest = scan_ready slots n (i + 1) in
    if slot_is_ready (slot_at slots i) then some i else rest

-- `for i in cursor..MAX_TASKS`, then `for i in 0..cursor`.
unfoldable pub search_ready : Slots → ℕ → Option ℕ
search_ready slots cursor = elim (scan_ready slots (max_tasks - cursor) cursor) [
  | some i ↦ some i
  | none ↦ scan_ready slots cursor 0
]

unfoldable pub pick_next : RunQueue → Option ℕ × RunQueue
pick_next rq = if rq.len == 0 then (none, rq) else elim (search_ready rq.tasks rq.cursor) [
  | some i ↦ (some i, record rq { cursor = (i + 1) % max_tasks })
  | none ↦ (none, rq)
]

-- `get` and `get_mut`: an index past the end is a panic in the source.
abbrev pub get : RunQueue → ℕ → Option Task
get rq i = slot_at rq.tasks i

abbrev slot_has_pid : ℕ → Option Task → Bool
slot_has_pid pid none = false
slot_has_pid pid (some t) = t.pid == pid

unfoldable pub find_task : ℕ → Slots → Option Task
find_task pid [] = none
find_task pid (none ∷ s) = find_task pid s
find_task pid (some t ∷ s) = if t.pid == pid then some t else find_task pid s

unfoldable pub find_pid : ℕ → RunQueue → Option Task
unfolding find_task
find_pid pid rq = find_task pid rq.tasks

unfoldable pub position_pid : ℕ → Slots → Option ℕ
position_pid pid [] = none
position_pid pid (t ∷ s) =
    if slot_has_pid pid t
    then some 0
    else elim (position_pid pid s) [ none ↦ none | some i ↦ some (suc i) ]

unfoldable pub find_pid_idx : ℕ → RunQueue → Option ℕ
unfolding position_pid
find_pid_idx pid rq = position_pid pid rq.tasks

-- What is done through `find_pid_mut(pid)`, or through `get_mut(find_pid_idx(pid))`: the first task
-- with this pid is changed.
unfoldable pub modify : ℕ → (Task → Task) → Slots → Slots
modify pid f [] = []
modify pid f (none ∷ s) = none ∷ modify pid f s
modify pid f (some t ∷ s) = if t.pid == pid then some (f t) ∷ s else some t ∷ modify pid f s

unfoldable pub modify_pid : ℕ → (Task → Task) → RunQueue → RunQueue
modify_pid pid f rq = record rq { tasks = modify pid f rq.tasks }

-- `get_mut(idx)` and the write through it.
abbrev pub change : (Task → Task) → Option Task → Option Task
change f none = none
change f (some t) = some (f t)

unfoldable pub modify_at : ℕ → (Task → Task) → RunQueue → RunQueue
modify_at i f rq = record rq { tasks = set rq.tasks i (change f (slot_at rq.tasks i)) }

abbrev blocked_at : ℕ → Task → Task
blocked_at port t = record t { state = TaskState.blocked; blocked_on = some port }

unfoldable block_on_port : ℕ → ℕ → RunQueue → RunQueue
unfolding modify_pid
block_on_port pid port rq = modify_pid pid (blocked_at port) rq

abbrev pub waits_on : ℕ → Task → Bool
waits_on port t = elim t.blocked_on [ none ↦ false | some p ↦ p == port ] && is_blocked t.state

abbrev pub wake : ℕ → Option Task → Option Task
wake port none = none
wake port (some t) =
    if waits_on port t
    then some (record t { state = TaskState.ready; blocked_on = none })
    else some t

unfoldable pub wake_all : ℕ → Slots → Slots
wake_all port [] = []
wake_all port (s ∷ slots) = wake port s ∷ wake_all port slots

unfoldable pub unblock_port : ℕ → RunQueue → RunQueue
unblock_port port rq = record rq { tasks = wake_all port rq.tasks }

unfoldable mark_zombie : ℕ → RunQueue → RunQueue
unfolding modify_pid
mark_zombie pid rq = modify_pid pid (λ t. record t { state = TaskState.zombie }) rq

-- `len.saturating_sub(1)` is the subtraction of ℕ.
unfoldable pub remove : ℕ → RunQueue → Option Task × RunQueue
remove i rq = elim (slot_at rq.tasks i) [
  | none ↦ (none, rq)
  | some t ↦ (some t, record rq { tasks = set rq.tasks i none; len = rq.len - 1 })
]
