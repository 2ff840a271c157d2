-- ===== src/Sched.antt =====
-- The crate `sched` (sched/src): the task descriptor, the run queue, futexes, signals and the
-- scheduler's calls.
pub mod Task
pub mod RunQueue
pub mod Futex
pub mod Calls
pub mod Signal
mod Tests
