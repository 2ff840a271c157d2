-- ===== src/Vfs/Open/Laws.antt =====
-- The files that `handle_open` of servers/vfs/src/lib.rs creates.
use cyanos.Vfs.{Vfs}
