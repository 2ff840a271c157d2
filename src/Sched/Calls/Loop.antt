-- ===== src/Sched/Calls/Loop.antt =====
-- The loops of sched/src/lib.rs: a turn of `wait_pid`, `spawn` of a kernel task, and the two halves of a
-- turn of the scheduler, before and after the switch to a task.
use cyanos.Base.{ℕ, Option, none, some, if◌then◌else◌}
use cyanos.Mm.Buddy
use cyanos.Mm.Buddy.{Buddy, page_size}
use cyanos.Sched.Task.{Task, TaskState, is_running, is_zombie, new_kernel}
use cyanos.Sched.RunQueue
use cyanos.Sched.RunQueue.{RunQueue, find_pid, find_pid_idx, modify_pid, modify_at, slot_at}
use cyanos.Sched.Calls.{Sched, get_exit_code, alloc_pid, log_exit}

-- One turn of the loop of `wait_pid`.
pub data Waited : Type 0 where
  exited : ℕ → Waited
  unknown : Waited
  yields : Waited

unfoldable pub wait_pid_turn : ℕ → Sched → Waited × Sched
unfolding get_exit_code
wait_pid_turn pid s = elim (find_pid_idx pid s.run_queue) [
  | none ↦ elim (get_exit_code pid s) [
    | some code ↦ (Waited.exited code, s)
    | none ↦ (Waited.unknown, s)
  ]
  | some idx ↦ elim (slot_at s.run_queue.tasks idx) [
    | none ↦ (Waited.yields, s)
    | some t ↦
        if is_zombie t.state
        then (
          Waited.exited t.exit_code,
          record s { run_queue = (RunQueue.remove idx s.run_queue).1 },
        )
        else (Waited.yields, s)
  ]
]

-- `spawn` of a kernel task, with the page allocator; the outer `none` is a panic of it.
unfoldable spawn : Sched → Buddy → Option (Option ℕ × Sched × Buddy)
spawn s b =
    let (pid, s') = alloc_pid s in
    elim (Buddy.alloc 4 b) [
      | none ↦ none
      | some (none, b') ↦ some (none, s', b')
      | some (some stack_base, b') ↦
          let (placed, rq) = RunQueue.enqueue (new_kernel pid stack_base 0) s'.run_queue in
          if placed
          then some (some pid, record s' { run_queue = rq }, b')
          else elim (Buddy.free stack_base 4 b') [ none ↦ none | some b'' ↦ some (none, s', b'') ]
    ]

-- The scheduler's loop, up to the switch to the task that `pick_next` names: it runs and is the
-- current task.
unfoldable pub dispatch : Sched → Option ℕ × Sched
dispatch s =
    let (picked, rq) = RunQueue.pick_next s.run_queue in
    elim picked [
      | none ↦ (none, record s { run_queue = rq })
      | some idx ↦ elim (slot_at rq.tasks idx) [
        | none ↦ (none, record s { run_queue = rq })
        | some t ↦ (
          some idx,
          record s {
            run_queue = modify_at idx (λ u. record u { state = TaskState.running }) rq;
            current_pid = t.pid;
          },
        )
      ]
    ]

abbrev pub put_back : Task → Task
put_back t = record t { state = (if is_running t.state then TaskState.ready else t.state) }

-- After the switch back: a task that still runs is ready again, and a zombie is removed, its stack
-- freed, and its exit logged. The exit hook, which another crate registers, changes `H`.
unfoldable pub switch_back {ℓ} :
    {H : Type ℓ} → (ℕ → H → H) → ℕ → Sched → Buddy → H → Option (Sched × Buddy × H)
unfolding log_exit
switch_back hook idx s b h =
    let rq = modify_at idx put_back s.run_queue in
    let s' : Sched = record s { run_queue = rq; current_pid = 0 } in
    elim (slot_at rq.tasks idx) [
      | none ↦ some (s', b, h)
      | some t ↦
          if is_zombie t.state
          then elim (Buddy.free t.kernel_stack 4 b) [
            | none ↦ none
            | some b' ↦ some (
              log_exit t.pid t.exit_code (record s' { run_queue = (RunQueue.remove idx rq).1 }),
              b',
              hook t.pid h,
            )
          ]
          else some (s', b, h)
    ]
