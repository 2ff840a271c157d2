-- ===== src/Vfs/Event.antt =====
-- The event counters and timers of servers/vfs/src/lib.rs, which are descriptors too.
pub mod Laws
use cyanos.Base.{
  ℕ, ◌+◌, ◌-◌, ◌*◌, ◌/◌, ◌%◌, ◌^◌, Bool, true, false, ◌&&◌, Option, none, some, ltb, ◌==◌,
  if◌then◌else◌, set, add64, position,
}
use cyanos.Server.Memory.{store_word}
use cyanos.Server.Wire.{Reply, value, errno}
use cyanos.Vfs.{
  Vfs, VnodeKind, FdEntry, ProcFdTable, TimerFdEntry, event_fd, timer_fd, get_or_create, at_fd,
  put_fd, fd_unused, free_timer, is_free, max_u64,
}
use cyanos.Vfs.Transfer.{timer_at}

abbrev new_fd : VnodeKind → FdEntry
new_fd kind = record { kind = kind; flags = 0; in_use = true }

-- The end of both handlers: a descriptor for the slot, or `undo` if there is none.
abbrev open_slot : ℕ → VnodeKind → (Vfs → Vfs) → Vfs → Reply × Vfs
open_slot pid kind undo v = elim (get_or_create pid v.tables) [
  | none ↦ (errno 24, undo v)
  | some (i, t, tbls) ↦ elim (position fd_unused t.fds) [
    | none ↦ (errno 24, undo (record v { tables = tbls }))
    | some fd ↦ (value fd, record v { tables = set tbls i (put_fd fd (new_fd kind) t) })
  ]
]

abbrev put_counter : ℕ → ℕ → Vfs → Vfs
put_counter slot n v = record v { eventfd_counters = set v.eventfd_counters slot n }

abbrev pub put_timer : ℕ → TimerFdEntry → Vfs → Vfs
put_timer slot e v = record v { timerfd_pool = set v.timerfd_pool slot e }

abbrev pub counter_free : ℕ → Bool
counter_free n = n == max_u64

unfoldable pub handle_eventfd : ℕ → ℕ → Vfs → Reply × Vfs
unfolding get_or_create
handle_eventfd pid initval v = elim (position counter_free v.eventfd_counters) [
  | none ↦ (errno 24, v)
  | some slot ↦
      let n = if initval == max_u64 then max_u64 - 1 else initval in
      open_slot pid (event_fd slot) (put_counter slot max_u64) (put_counter slot n v)
]

unfoldable pub handle_timerfd_create : ℕ → Vfs → Reply × Vfs
unfolding get_or_create
handle_timerfd_create pid v = elim (position is_free v.timerfd_pool) [
  | none ↦ (errno 24, v)
  | some slot ↦
      open_slot pid (timer_fd slot) (put_timer slot free_timer)
        (put_timer slot (record free_timer { deadline_ticks = 1 }) v)
]

abbrev timer_of : VnodeKind → Option ℕ
timer_of (timer_fd slot) = some slot
timer_of k = none

abbrev ns_per_tick : ℕ
ns_per_tick = 10000000

-- `(value_ns / NS_PER_TICK).max(1)`.
abbrev ticks_for : ℕ → ℕ
ticks_for ns = if ltb ns ns_per_tick then 1 else ns / ns_per_tick

unfoldable set_timer : ℕ → ℕ → ℕ → TimerFdEntry → TimerFdEntry
set_timer now value_ns interval_ns e =
    if value_ns == 0 then record e { armed = false; expirations = 0 } else record {
      armed = true;
      deadline_ticks = add64 now (ticks_for value_ns);
      interval_ticks = interval_ns / ns_per_tick;
      expirations = 0;
    }

unfoldable pub handle_timerfd_settime : ℕ → ℕ → ℕ → ℕ → Vfs → Reply × Vfs
unfolding set_timer
handle_timerfd_settime pid fd value_ns interval_ns v = elim (at_fd pid fd v.tables) [
  | none ↦ (errno 9, v)
  | some (i, t, e) ↦ elim (timer_of e.kind) [
    | none ↦ (errno 22, v)
    | some slot ↦
        (value 0, put_timer slot (set_timer v.now value_ns interval_ns (timer_at slot v)) v)
  ]
]

abbrev remaining_ns : ℕ → TimerFdEntry → ℕ
remaining_ns now e =
    if e.armed && ltb now e.deadline_ticks
    then (e.deadline_ticks - now) * ns_per_tick % 2 ^ 64
    else 0

unfoldable pub handle_timerfd_gettime : ℕ → ℕ → ℕ → Vfs → Reply × Vfs
handle_timerfd_gettime pid fd out_ptr v =
    if out_ptr == 0 then (errno 14, v) else elim (at_fd pid fd v.tables) [
      | none ↦ (errno 9, v)
      | some (i, t, e) ↦ elim (timer_of e.kind) [
        | none ↦ (errno 22, v)
        | some slot ↦
            let e = timer_at slot v in
            let remaining = remaining_ns v.now e in
            let interval = e.interval_ticks * ns_per_tick % 2 ^ 64 in
            (
              value 0,
              record v {
                memory = store_word 8 (out_ptr + 24) (remaining % 1000000000) (
                    store_word 8 (out_ptr + 16) (remaining / 1000000000) (
                      store_word 8 (out_ptr + 8) (interval % 1000000000)
                        (store_word 8 out_ptr (interval / 1000000000) v.memory)));
              },
            )
      ]
    ]
