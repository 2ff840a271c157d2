-- ===== src/Sched/Calls.antt =====
-- sched/src/lib.rs: the scheduler's state and its calls, on one processor. A call for the current
-- task takes its pid from `current_pid`.
pub mod Signals
pub mod Exits
pub mod Loop
pub mod Dispatch
use cyanos.Base.{
  ℕ, zero, suc, ◌+◌, ◌-◌, ◌%◌, ◌^◌, bit_and, bit_or, Bool, true, false, ◌&&◌, Option, none, some,
  List, [], ◌∷◌, ltb, leb, ◌==◌, if◌then◌else◌, set, replicate, add64, add32, max_u32,
}
use cyanos.Mm.Buddy
use cyanos.Mm.Buddy.{Buddy, page_size}
use cyanos.Base.Bits.{and_not}
use cyanos.Sched.Task.{Task, TaskState, is_blocked, is_running, is_zombie, new_kernel}
use cyanos.Sched.RunQueue
use cyanos.Sched.RunQueue.{RunQueue, find_pid, find_pid_idx, modify_pid, modify_at, slot_at}
use mathlib.Core.Option

pub record ExitRecord : Type 0 where
  pub pid : ℕ
  pub code : ℕ

abbrev pub exit_log_len : ℕ
exit_log_len = 256

abbrev pub ExitLog : Type 0
ExitLog = List (Option ExitRecord)

-- The statics of the crate.
pub record Sched : Type 0 where
  pub run_queue : RunQueue
  pub next_pid : ℕ
  pub exit_log : ExitLog
  pub exit_log_idx : ℕ
  pub current_pid : ℕ
  pub timer_ticks : ℕ
  pub preempt_needed : Bool

unfoldable pub init : Sched
unfolding replicate
init = record {
  run_queue = RunQueue.new;
  next_pid = 1;
  exit_log = replicate exit_log_len none;
  exit_log_idx = 0;
  current_pid = 0;
  timer_ticks = 0;
  preempt_needed = false;
}

unfoldable pub log_exit : ℕ → ℕ → Sched → Sched
log_exit pid code s = record s {
  exit_log = set s.exit_log s.exit_log_idx (some (record { pid = pid; code = code }));
  exit_log_idx = (s.exit_log_idx + 1) % exit_log_len;
}

unfoldable pub find_exit : ℕ → ExitLog → Option ℕ
find_exit pid [] = none
find_exit pid (none ∷ log) = find_exit pid log
find_exit pid (some e ∷ log) = if e.pid == pid then some e.code else find_exit pid log

unfoldable pub get_exit_code : ℕ → Sched → Option ℕ
unfolding find_exit
get_exit_code pid s = find_exit pid s.exit_log

unfoldable pub alloc_pid : Sched → ℕ × Sched
alloc_pid s = (s.next_pid, record s { next_pid = add32 s.next_pid 1 })

-- `find_pid(pid).map(f).unwrap_or(d)` of the current task.
abbrev current_field : (Task → ℕ) → ℕ → Sched → ℕ
current_field f d s = elim (find_pid s.current_pid s.run_queue) [ none ↦ d | some t ↦ f t ]

unfoldable current_ppid : Sched → ℕ
current_ppid = current_field (λ t. t.ppid) 0

unfoldable current_pgid : Sched → ℕ
current_pgid = current_field (λ t. t.pgid) 0

unfoldable current_sid : Sched → ℕ
current_sid = current_field (λ t. t.sid) 0

unfoldable pub pending_signals : Sched → ℕ
pending_signals = current_field (λ t. t.signal_pending) 0

unfoldable current_reply_port : Sched → ℕ
current_reply_port = current_field (λ t. t.reply_port) max_u32

unfoldable pub heap_end : Sched → ℕ
heap_end = current_field (λ t. t.heap_end) 0

unfoldable get_fs_base : Sched → ℕ
get_fs_base = current_field (λ t. t.tls_base) 0

abbrev pub update : ℕ → (Task → Task) → Sched → Sched
update pid f s = record s { run_queue = modify_pid pid f s.run_queue }

-- `signo > 0 && signo <= 64`.
abbrev pub is_signal : ℕ → Bool
is_signal signo = ltb 0 signo && leb signo 64

abbrev pub signalled : ℕ → Task → Task
signalled signo t = record t {
  signal_pending = bit_or t.signal_pending (2 ^ (signo - 1));
  state = (if is_blocked t.state then TaskState.ready else t.state);
}

pub data Delivery : Type 0 where
  delivered einval esrch : Delivery

unfoldable pub deliver_signal : ℕ → ℕ → Sched → Delivery × Sched
deliver_signal pid signo s = elim (find_pid pid s.run_queue) [
  | none ↦ (Delivery.esrch, s)
  | some t ↦
      if is_signal signo
      then (Delivery.delivered, update pid (signalled signo) s)
      else (Delivery.einval, s)
]

unfoldable pub clear_pending_signal : ℕ → Sched → Sched
clear_pending_signal signo s =
    if is_signal signo
    then update s.current_pid
        (λ t. record t { signal_pending = and_not t.signal_pending (2 ^ (signo - 1)) }) s
    else s

unfoldable replace_signal_mask : ℕ → Sched → ℕ × Sched
replace_signal_mask new_mask s = (
  current_field (λ t. t.signal_mask) 0 s,
  update s.current_pid (λ t. record t { signal_mask = new_mask }) s,
)

unfoldable set_current_reply_port : ℕ → Sched → Sched
set_current_reply_port port s = update s.current_pid (λ t. record t { reply_port = port }) s

abbrev has_task : ℕ → Sched → Bool
has_task pid s = elim (find_pid pid s.run_queue) [ none ↦ false | some t ↦ true ]

unfoldable set_pgid : ℕ → ℕ → Sched → Bool × Sched
set_pgid pid pgid s = (has_task pid s, update pid (λ t. record t { pgid = pgid }) s)

unfoldable setsid : Sched → ℕ × Sched
setsid s = (
  (if has_task s.current_pid s then s.current_pid else 0),
  update s.current_pid (λ t. record t { sid = s.current_pid; pgid = s.current_pid }) s,
)

unfoldable pub umask : ℕ → Sched → ℕ × Sched
umask mask s = (
  current_field (λ t. t.umask) 0 s,
  update s.current_pid (λ t. if mask == max_u32 then t else record t { umask = bit_and mask 0o777 })
      s,
)

unfoldable set_clear_child_tid : ℕ → Sched → Sched
set_clear_child_tid tidptr s = update s.current_pid (λ t. record t { clear_child_tid = tidptr }) s

unfoldable set_fs_base : ℕ → Sched → Sched
set_fs_base addr s = update s.current_pid (λ t. record t { tls_base = addr }) s

-- `timer_tick_irq`, and the test of `preempt_check`: whether it yields.
unfoldable timer_tick_irq : Sched → Sched
timer_tick_irq s = record s { timer_ticks = add64 s.timer_ticks 1; preempt_needed = true }

unfoldable preempt_check : Sched → Bool × Sched
preempt_check s = (s.preempt_needed, record s { preempt_needed = false })

-- The part of `exit` before it yields for the last time.
unfoldable pub exit : ℕ → Sched → Sched
exit code s = update s.current_pid (λ t. record t { state = TaskState.zombie; exit_code = code }) s
