-- ===== src/Sched/Futex.antt =====
-- sched/src/futex.rs: the table of waiters and the two futex calls.
pub mod Laws
use cyanos.Base.{
  ℕ, zero, suc, ◌+◌, Bool, false, ◌&&◌, Option, none, some, List, [], ◌∷◌, ltb, leb, ◌==◌,
  if◌then◌else◌, replicate, true,
}
use cyanos.Sched.Task.{Task, TaskState, is_blocked}
use cyanos.Sched.RunQueue.{RunQueue, find_pid, modify_pid}

pub record FutexWaiter : Type 0 where
  pub pid : ℕ
  pub uaddr : ℕ

abbrev pub Waiters : Type 0
Waiters = List (Option FutexWaiter)

abbrev max_futex_waiters : ℕ
max_futex_waiters = 256

-- The length of the array `pids`.
abbrev pub max_wakes : ℕ
max_wakes = 32

-- `FUTEX_TABLE`.
unfoldable pub new : Waiters
unfolding replicate
new = replicate max_futex_waiters none

-- Step 1 of `futex_wait`: the first free slot takes the waiter, if there is one.
unfoldable register : FutexWaiter → Waiters → Waiters
register w [] = []
register w (none ∷ tbl) = some w ∷ tbl
register w (some v ∷ tbl) = some v ∷ register w tbl

abbrev blocked_on_futex : ℕ → Task → Task
blocked_on_futex uaddr t = record t { state = TaskState.blocked; blocked_futex = uaddr }

-- Steps 1 and 2, up to the switch to the scheduler.
unfoldable wait_enter : ℕ → ℕ → Waiters → RunQueue → Waiters × RunQueue
unfolding register modify_pid
wait_enter pid uaddr tbl rq =
    (register (record { pid = pid; uaddr = uaddr }) tbl, modify_pid pid (blocked_on_futex uaddr) rq)

-- The first slot of the task is freed.
unfoldable unregister : ℕ → Waiters → Waiters
unregister pid [] = []
unregister pid (none ∷ tbl) = none ∷ unregister pid tbl
unregister pid (some w ∷ tbl) = if w.pid == pid then none ∷ tbl else some w ∷ unregister pid tbl

-- Step 4, after the task runs again.
unfoldable wait_leave : ℕ → Waiters → RunQueue → Waiters × RunQueue
unfolding unregister modify_pid
wait_leave pid tbl rq =
    (unregister pid tbl, modify_pid pid (λ t. record t { blocked_futex = 0 }) rq)

-- `w.uaddr == uaddr && count < pids.len()`.
abbrev takes : ℕ → ℕ → FutexWaiter → Bool
takes uaddr count w = (w.uaddr == uaddr) && ltb count max_wakes

-- The first loop of `futex_wake`: the pids taken, and the table without them.
unfoldable pub collect : ℕ → ℕ → ℕ → Waiters → List ℕ × Waiters
collect uaddr n count [] = ([], [])
collect uaddr n count (none ∷ tbl) = elim (leb n count) [
  | true ↦ ([], none ∷ tbl)
  | false ↦ (let (pids, tbl') = collect uaddr n count tbl in (pids, none ∷ tbl'))
]
collect uaddr n count (some w ∷ tbl) = elim (leb n count) [
  | true ↦ ([], some w ∷ tbl)
  | false ↦ elim (takes uaddr count w) [
    | true ↦ (let (pids, tbl') = collect uaddr n (count + 1) tbl in (w.pid ∷ pids, none ∷ tbl'))
    | false ↦ (let (pids, tbl') = collect uaddr n count tbl in (pids, some w ∷ tbl'))
  ]
]

abbrev pub woken_task : Task → Task
woken_task t =
    if is_blocked t.state then record t { state = TaskState.ready; blocked_futex = 0 } else t

abbrev is_blocked_task : Option Task → Bool
is_blocked_task none = false
is_blocked_task (some t) = is_blocked t.state

-- The second loop: the number of tasks woken, and the run queue.
unfoldable pub wake_pids : List ℕ → RunQueue → ℕ × RunQueue
unfolding find_pid modify_pid
wake_pids [] rq = (0, rq)
wake_pids (pid ∷ pids) rq =
    let (woken, rq') = wake_pids pids (modify_pid pid woken_task rq) in
    ((if is_blocked_task (find_pid pid rq) then woken + 1 else woken), rq')

unfoldable pub futex_wake : ℕ → ℕ → Waiters → RunQueue → ℕ × Waiters × RunQueue
unfolding collect wake_pids
futex_wake uaddr n tbl rq =
    let (pids, tbl') = collect uaddr n 0 tbl in
    let (woken, rq') = wake_pids pids rq in (woken, tbl', rq')
