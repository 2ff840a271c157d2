-- ===== src/Sched/Tests.antt =====
-- The theorems on the scheduler at concrete queues.
use cyanos.Base.{◌≡◌, none, some, ◌≤◌, [], ◌∷◌, arith}
use cyanos.Sched.Task.{Task, TaskState, new_kernel}
use cyanos.Sched.RunQueue
use cyanos.Sched.RunQueue.{
  RunQueue, enqueue, find_pid, modify_pid, find_pid_idx, unblock_port, pick_next, find_task,
  waits_on,
}
use cyanos.Sched.RunQueue.Slots.{IsValid, new-IsValid, enqueue-IsValid}
use cyanos.Sched.RunQueue.Pick.{Picked, pick_next_lem}
use cyanos.Sched.Futex.{Waiters, futex_wake}
use cyanos.Sched.Futex.Laws.{waiting, futex_wake_lem}
use cyanos.Sched.Calls
use cyanos.Sched.Calls.{
  Sched, deliver_signal, clear_pending_signal, pending_signals, get_exit_code, log_exit, signalled,
}
use cyanos.Sched.Calls.Loop.{dispatch}
use cyanos.Sched.Calls.Dispatch.{Dispatched, dispatch_lem}

-- Task 1 is ready, task 2 waits on port 9.
abbrev first : Task
first = new_kernel 1 65536 0

abbrev second : Task
second = record (new_kernel 2 131072 0) { state = TaskState.blocked; blocked_on = some 9 }

abbrev one_task : RunQueue
one_task = (enqueue first RunQueue.new).1

abbrev two_tasks : RunQueue
two_tasks = (enqueue second one_task).1

one_task-IsValid : IsValid one_task
one_task-IsValid = (enqueue-IsValid first RunQueue.new new-IsValid).0

two_tasks-IsValid : IsValid two_tasks
two_tasks-IsValid = (enqueue-IsValid second one_task one_task-IsValid).0

pick_next_lem_example : Picked two_tasks (pick_next two_tasks)
pick_next_lem_example = pick_next_lem two_tasks two_tasks-IsValid

-- Two ready tasks: the pick takes slot 0 and passes over slot 1.
abbrev third : Task
third = new_kernel 3 196608 0

abbrev both_ready : RunQueue
both_ready = (enqueue third one_task).1

-- Two tasks wait on the address 64, one on 80.
abbrev waiters : Waiters
waiters =
    some (record { pid = 1; uaddr = 64 })
    ∷ none
    ∷ some (record { pid = 2; uaddr = 64 })
    ∷ some (record { pid = 3; uaddr = 80 })
    ∷ []

futex_wake_lem_example :
    (waiting 64 (futex_wake 64 1 waiters two_tasks).1 ≡ 1)
    × ((futex_wake 64 1 waiters two_tasks).0 ≤ 1)
    × (waiting 80 (futex_wake 64 1 waiters two_tasks).1 ≡ 1)
unfolding waiting
futex_wake_lem_example = futex_wake_lem 64 80 1 waiters two_tasks (omega arith)

abbrev running_first : Sched
running_first = record (Calls.init) { run_queue = two_tasks; current_pid = 1 }

dispatch_lem_example : Dispatched running_first (dispatch running_first)
dispatch_lem_example = dispatch_lem running_first two_tasks-IsValid
