-- ===== src/Vfs.antt =====
-- servers/vfs/src/lib.rs: the state of the file server. The children model its handlers: `Transfer`
-- (read and write), `Pipe`, `Descriptor` (close, dup, fcntl, fork, exec), `Seek`, `Tmp` (the writable
-- files), `Event` (eventfd and timerfd), `Proc` (the generated files), `Initrd`, `Open` and `Call`
-- (ioctl and the dispatch).
--
-- The tables behind the server's locks are the fields of one record. A handler takes the locks one
-- after the other and no other call runs in between, since a caller runs the server itself. `now` is
-- the tick counter, which stands still during a call.
use cyanos.Base.{
  ℕ, ◌-◌, ◌*◌, ◌^◌, Bool, true, false, not, ◌&&◌, Option, none, some, List, leb, ◌==◌,
  if◌then◌else◌, get_or, set, replicate, locate, position,
}
pub mod Table
pub mod Transfer
pub mod Ramfs
pub mod Seek
pub mod Tmp
pub mod Event
pub mod Proc
pub mod Initrd
pub mod Open
pub mod Dir
pub mod Call
mod Tests
pub mod Descriptor
pub mod Pipe
use cyanos.Base.Text.{text}
use cyanos.Server.Memory.{UserMemory}
use cyanos.Server.Ring
use cyanos.Server.Ring.{ByteRing}
use cyanos.Server.Wire.{Reply}

abbrev max_tmp_files : ℕ
max_tmp_files = 32

abbrev pub max_tmp_size : ℕ
max_tmp_size = 4096

abbrev pub max_tmp_path : ℕ
max_tmp_path = 64

abbrev pub pipe_ring_size : ℕ
pipe_ring_size = 4096

abbrev max_pipes : ℕ
max_pipes = 16

abbrev max_eventfds : ℕ
max_eventfds = 16

abbrev max_timerfds : ℕ
max_timerfds = 16

abbrev pub max_procs : ℕ
max_procs = 64

abbrev pub max_fds : ℕ
max_fds = 64

abbrev pub o_cloexec : ℕ
o_cloexec = 524288

-- `u64::MAX`, which marks a free counter.
abbrev pub max_u64 : ℕ
max_u64 = 2 ^ 64 - 1

-- The first `path_len` bytes of `path` are the path; `data` has all `max_tmp_size` bytes.
pub record TmpFileEntry : Type 0 where
  pub path : List ℕ
  pub path_len : ℕ
  pub data_ : List ℕ
  pub len : ℕ
  pub in_use : Bool
  pub is_dir : Bool

unfoldable pub empty_file : TmpFileEntry
unfolding replicate
empty_file = record {
  path = replicate max_tmp_path 0;
  path_len = 0;
  data_ = replicate max_tmp_size 0;
  len = 0;
  in_use = false;
  is_dir = false;
}

-- `VnodeKind::None` is `absent`.
pub data VnodeKind : Type 0 where
  absent : VnodeKind
  ram_file : List ℕ → ℕ → VnodeKind
  dev_null dev_zero : VnodeKind
  pipe : ℕ → Bool → VnodeKind
  tmp_file : ℕ → ℕ → Bool → VnodeKind
  event_fd : ℕ → VnodeKind
  timer_fd : ℕ → VnodeKind
  dev_urandom : VnodeKind
  dev_stdio : ℕ → VnodeKind
  dev_fb : ℕ → VnodeKind

pub record PipeRing : Type 0 where
  pub ring : ByteRing
  pub open ring use *
  pub read_open : Bool
  pub write_open : Bool

unfoldable pub new_pipe : PipeRing
unfolding Ring.new
new_pipe = record { ring = Ring.new pipe_ring_size; read_open = false; write_open = false }

pub record TimerFdEntry : Type 0 where
  pub armed : Bool
  pub deadline_ticks : ℕ
  pub interval_ticks : ℕ
  pub expirations : ℕ

abbrev pub free_timer : TimerFdEntry
free_timer = record { armed = false; deadline_ticks = 0; interval_ticks = 0; expirations = 0 }

abbrev pub is_free : TimerFdEntry → Bool
is_free e = not e.armed && (e.deadline_ticks == 0 && e.expirations == 0)

pub record FdEntry : Type 0 where
  pub kind : VnodeKind
  pub flags : ℕ
  pub in_use : Bool

abbrev pub empty_fd : FdEntry
empty_fd = record { kind = absent; flags = 0; in_use = false }

pub record ProcFdTable : Type 0 where
  pub pid : ℕ
  pub fds : List FdEntry
  pub in_use : Bool

unfoldable pub empty_table : ProcFdTable
unfolding replicate
empty_table = record { pid = 0; fds = replicate max_fds empty_fd; in_use = false }

abbrev pub Tables : Type 0
Tables = List ProcFdTable

pub record FrameBuffer : Type 0 where
  pub base : ℕ
  pub width : ℕ
  pub height : ℕ
  pub pitch : ℕ

pub record Vfs : Type 0 where
  pub tables : Tables
  pub tmp_files : List TmpFileEntry
  pub pipe_rings : List PipeRing
  pub eventfd_counters : List ℕ
  pub timerfd_pool : List TimerFdEntry
  pub lfsr_state : ℕ
  pub initrd_base : ℕ
  pub initrd_size : ℕ
  pub fb : FrameBuffer
  pub memory : UserMemory
  pub hhdm_offset : ℕ
  pub now : ℕ

unfoldable pub start : UserMemory → ℕ → Vfs
unfolding empty_table empty_file new_pipe replicate
start memory hhdm_offset = record {
  tables = replicate max_procs empty_table;
  tmp_files = replicate max_tmp_files empty_file;
  pipe_rings = replicate max_pipes new_pipe;
  eventfd_counters = replicate max_eventfds max_u64;
  timerfd_pool = replicate max_timerfds free_timer;
  lfsr_state = 16045690984503098046;
  initrd_base = 0;
  initrd_size = 0;
  fb = record { base = 0; width = 0; height = 0; pitch = 0 };
  memory = memory;
  hhdm_offset = hhdm_offset;
  now = 0;
}

abbrev set_initrd : ℕ → ℕ → Vfs → Vfs
set_initrd base size v = record v { initrd_base = base; initrd_size = size }

abbrev set_framebuffer : FrameBuffer → Vfs → Vfs
set_framebuffer fb v = record v { fb = fb }

abbrev pub is_of : ℕ → ProcFdTable → Bool
is_of pid t = t.in_use && (t.pid == pid)

abbrev pub is_unused : ProcFdTable → Bool
is_unused t = not t.in_use

-- The table of a process and its index.
abbrev pub find_tbl : ℕ → Tables → Option (ℕ × ProcFdTable)
find_tbl pid tbls = locate (is_of pid) tbls

unfoldable pub new_table : ℕ → ProcFdTable
unfolding empty_table
new_table pid = record empty_table { in_use = true; pid = pid }

-- The table of a process, or an unused one that becomes it, with what the tables are then.
unfoldable pub get_or_create : ℕ → Tables → Option (ℕ × ProcFdTable × Tables)
get_or_create pid tbls = elim (find_tbl pid tbls) [
  | some (i, t) ↦ some (i, t, tbls)
  | none ↦ elim (position is_unused tbls) [
    | none ↦ none
    | some i ↦ some (i, new_table pid, set tbls i (new_table pid))
  ]
]

abbrev pub fd_unused : FdEntry → Bool
fd_unused e = not e.in_use

abbrev pub alloc_fd : ProcFdTable → Option ℕ
alloc_fd t = position fd_unused t.fds

-- `fd >= MAX_FDS || !tbl.fds[fd].in_use` is refused.
abbrev pub open_fd : ℕ → ProcFdTable → Option FdEntry
open_fd fd t =
    if leb max_fds fd
    then none
    else let e = get_or t.fds fd empty_fd in if e.in_use then some e else none

-- The start of the handlers that take a descriptor: none is `EBADF`.
unfoldable pub at_fd : ℕ → ℕ → Tables → Option (ℕ × ProcFdTable × FdEntry)
at_fd pid fd tbls = elim (find_tbl pid tbls) [
  | none ↦ none
  | some (i, t) ↦ elim (open_fd fd t) [ none ↦ none | some e ↦ some (i, t, e) ]
]

abbrev pub put_fd : ℕ → FdEntry → ProcFdTable → ProcFdTable
put_fd fd e t = record t { fds = set t.fds fd e }

-- `tbl.fds[fd] = e` in the table with index `i`.
abbrev pub put_entry : ℕ → ProcFdTable → ℕ → FdEntry → Vfs → Vfs
put_entry i t fd e v = record v { tables = set v.tables i (put_fd fd e t) }
