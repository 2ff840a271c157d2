-- ===== src/Ipc.antt =====
-- The crate `ipc` (ipc/src): messages, the port table with its bounded queues, and channels.
pub mod Message
pub mod Port
mod Tests
pub mod Channel
