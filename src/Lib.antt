-- ===== src/Lib.antt =====
-- A model of Cyanos, a microkernel operating system in Rust, and proofs that its core parts keep what
-- they promise: the scheduler, messages and memory of the kernel, the loader of executables, and the
-- file, terminal and network servers.
--
-- The parts and how they interact. Tasks live in the run queue (sched/src/runqueue.rs), from which
-- the scheduler's loop (sched/src/lib.rs) takes the next ready one. Tasks talk through ports
-- (ipc/src/port.rs): a send wakes the tasks that the run queue holds blocked on the port. A futex call
-- (sched/src/futex.rs) blocks and wakes tasks by address. Address spaces (mm/src/vmm.rs) take pages
-- from the page allocator (mm/src/buddy.rs) and write the page tables through the interface of
-- mm/src/paging.rs; small objects come from the slab allocator (mm/src/slab.rs), which takes its pages
-- from the same allocator. When a task exits, the scheduler calls a hook, which the ports register to
-- release what the task owned. The loader (elf/src/lib.rs) maps the segments of an executable into an
-- address space. The servers (servers/vfs, servers/net, servers/tty) answer messages: each keeps tables
-- of descriptors by process and reads and writes the buffers of its callers through pointers; pipes,
-- sockets and terminals are rings of bytes in it, and the timers of the terminal server send signals
-- through the scheduler.
--
-- The files.
--   Base: names passed on, Boolean tests, lists, bits, words of 64 and 32 bits, and the circle of
--     slots (Base/Circle) that ring buffers and message queues share.
--   Util: lib/src/lib.rs (align_up, align_down); Util/Ring: lib/src/ring_buffer.rs; Util/Bitmap:
--     lib/src/bitmap.rs.
--   Sched/Task: sched/src/task.rs; Sched/RunQueue: sched/src/runqueue.rs, where find_pid_mut with the
--     write through it is modify_pid, and get_mut is modify_at; Sched/Futex: sched/src/futex.rs, where
--     futex_wait is wait_enter and wait_leave, before and after the switch; Sched/Calls:
--     sched/src/lib.rs, where scheduler_run_loop is dispatch and switch_back;
--     Sched/Signal: sched/src/signal.rs, where a turn of check_and_deliver_signals is deliver_turn.
--   Ipc/Message, Ipc/Channel, Ipc/Port: the files of ipc/src of these names.
--   Mm/Buddy: mm/src/buddy.rs; Mm/Slab: mm/src/slab.rs; Mm/Mmu: mm/src/paging.rs; Mm/Vmm: mm/src/vmm.rs,
--     where map is map_vma, and the children Map, Fault, Unmap, Protect, Break and Drop hold the
--     operations; Mm/Cow: mm/src/cow.rs.
--   Capability: capability/src/lib.rs.
--   Server: what the servers share: the words of a message (Wire, for arg, make_reply and val_reply), the
--     memory of the callers (Memory) and the ring of bytes (Ring, for PipeRing and TtyBuf; Ring/Refine is
--     its specification as a bounded queue).
--   Vfs: servers/vfs/src/lib.rs. Each handler has its name from there; Vfs/Transfer is handle_read and
--     Vfs/Transfer/Write handle_write, with one function for each kind of descriptor; Vfs/Table is the
--     view of the tables as a map from process and descriptor to entry; Vfs/Call is the dispatch.
--   Net: servers/net/src/lib.rs, where Stream is UnixRing; Net/Delivery is the specification of a
--     connection as two bounded queues.
--   Tty: servers/tty/src/lib.rs, where find_tty with the look at the slot is tty_at.
--   Elf: elf/src/lib.rs, where the loop of load is load_segments and its body load_segment.
-- The modules Tests apply the theorems at concrete states.
--
-- Conventions. Numbers are natural numbers, with the wrap-around of usize and u32 written out where
-- the code can reach it; this is the behaviour of the release profile, which has no overflow checks.
-- Fixed arrays are lists with the length in the invariant of the component. A failed assertion is
-- `none` around the whole result. A lock is held for the length of an operation, so that each
-- operation is one step, and a history is a sequence of steps.
--
-- Bounds and fuel. The outer loop of the allocation of ports runs 65536 rounds, as the code does, and
-- the probes 16 steps. `pages_to_order` of the slab allocator doubles at most 11 times for a request of
-- at most 1024 pages; that of the address spaces has fuel for 64 doublings, which is every word. The
-- merge of freed blocks has one round for each order left, and the search of a ready task one for each
-- slot. A read or write of a standard stream calls itself, with 64 turns in the dispatch of the file
-- server; two are enough unless a standard stream is a proxy. The search of the archive moves on by a
-- byte or more in each turn, so its bytes and one more turn are enough. A number of 32 bits has at most
-- 10 decimal digits. The other loops run over lists.
--
-- Parameters. The signal frame that the architecture writes is a function to its success. The page
-- tables of a processor are the record Mmu: what it maps is not looked into, only whether a mapping
-- succeeds. The exit hook of the scheduler is any function. The file server is given what the scheduler
-- and the page allocator report for the files under /proc, and whether two static names are the same
-- slice in memory. The clock does not move during a call.
--
-- Not modelled: the processors (arch), boot, drivers, the init and process servers, the library shim and
-- the user programs, the system calls, saved registers and the context switch, signal frames, and the
-- rest of fork. Of the loader, the maintenance of caches and the debug output are left out, and of the
-- servers the loops that wait for a message.
pub mod Base
pub mod Util
pub mod Vfs
pub mod Net
pub mod Tty
pub mod Elf
pub mod Sched
pub mod Server
pub mod Ipc
pub mod Mm
pub mod Capability
