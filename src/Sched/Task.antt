-- ===== src/Sched/Task.antt =====
-- sched/src/task.rs: the fields of the task descriptor that scheduling, blocking, signals and
-- process identity use. The saved registers and the working directory are not modelled here.
use cyanos.Base.{ℕ, Bool, true, false, Option, none, List, replicate, max_u32}

pub data TaskState : Type 0 where
  ready running blocked zombie : TaskState

-- `==` on states.
abbrev pub is_ready : TaskState → Bool
is_ready TaskState.ready = true
is_ready _ = false

abbrev pub is_running : TaskState → Bool
is_running TaskState.running = true
is_running _ = false

abbrev pub is_blocked : TaskState → Bool
is_blocked TaskState.blocked = true
is_blocked _ = false

abbrev pub is_zombie : TaskState → Bool
is_zombie TaskState.zombie = true
is_zombie _ = false

pub record SigAction : Type 0 where
  pub handler : ℕ
  pub flags : ℕ
  pub mask : ℕ
  pub restorer : ℕ

abbrev default_sigaction : SigAction
default_sigaction = record { handler = 0; flags = 0; mask = 0; restorer = 0 }

-- `exit_code` is an `i32`, kept as its bit pattern.
pub record Task : Type 0 where
  pub pid : ℕ
  pub state : TaskState
  pub page_table : ℕ
  pub kernel_stack : ℕ
  pub blocked_on : Option ℕ
  pub blocked_futex : ℕ
  pub exit_code : ℕ
  pub reply_port : ℕ
  pub ppid : ℕ
  pub tgid : ℕ
  pub pgid : ℕ
  pub sid : ℕ
  pub signal_pending : ℕ
  pub signal_mask : ℕ
  pub signal_actions : List SigAction
  pub clear_child_tid : ℕ
  pub heap_start : ℕ
  pub heap_end : ℕ
  pub tls_base : ℕ
  pub umask : ℕ

-- `Task::new_kernel`.
unfoldable pub new_kernel : ℕ → ℕ → ℕ → Task
unfolding replicate
new_kernel pid stack_base page_table = record {
  pid = pid;
  state = TaskState.ready;
  page_table = page_table;
  kernel_stack = stack_base;
  blocked_on = none;
  blocked_futex = 0;
  exit_code = 0;
  reply_port = max_u32;
  ppid = 0;
  tgid = pid;
  pgid = pid;
  sid = pid;
  signal_pending = 0;
  signal_mask = 0;
  signal_actions = replicate 4 default_sigaction;
  clear_child_tid = 0;
  heap_start = 0;
  heap_end = 0;
  tls_base = 0;
  umask = 0o022;
}
