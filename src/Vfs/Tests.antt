-- ===== src/Vfs/Tests.antt =====
-- Witnesses of the properties of the file server.
use cyanos.Base.{
  ℕ, zero, suc, ◌%◌, ◌≡◌, refl, ap, subst, true, false, some, [], ◌∷◌, arith, length, get_elem?,
  replicate, locate, ◌+◌, ◌-◌, ◌*◌, ◌≤◌, ◌<◌, Option, none, List, position, sym, ◌∙◌, get_or,
}
use mathlib.Core.Option.{some-injective}
use cyanos.Server.Memory.{load, store, store_word}
use cyanos.Server.Wire.{value, Reply}
use cyanos.Server.Ring
use cyanos.Server.Ring.Refine.{new-Holds}
use cyanos.Vfs.{
  Vfs, FdEntry, ProcFdTable, TimerFdEntry, start, new_table, put_fd, empty_table, tmp_file, pipe,
  dev_null, dev_stdio, new_pipe, VnodeKind, at_fd, empty_file, text,
}
use cyanos.Vfs.Table.{IsValid, descriptor}
use cyanos.Vfs.Descriptor.{handle_close, handle_dup2, handle_fork_dup, handle_exec_cloexec}
use cyanos.Vfs.Descriptor.Laws.{descriptor-handle_close, descriptor-handle_dup2}
use cyanos.Vfs.Descriptor.Processes.{
  descriptor-handle_fork_dup, descriptor-handle_exec_cloexec, kept_by_exec,
}
use cyanos.Vfs.Seek.{handle_lseek}
use cyanos.Vfs.Transfer.{handle_read, stdio_target}
use cyanos.Vfs.Transfer.Write.{handle_write}
use cyanos.Server.Ring.Refine.{put_all_refines}
use cyanos.Vfs.Pipe.Stream.{
  handle_write_refines, handle_read_refines, Carries, WriteDone, ReadDone, Returns,
}
use cyanos.Vfs.Transfer.Isolation.{handle_write_isolated, After}
use cyanos.Vfs.Transfer.Proxy.{handle_read_returns, handle_read_loops, IsPlain}
use cyanos.Vfs.Initrd.{find_in_initrd}
use cyanos.Vfs.Initrd.Bounds.{find_in_initrd_returns}
use cyanos.Vfs.Event.Laws.{expire_lem}
use cyanos.Vfs.Transfer.{expire}
use cyanos.Vfs.Transfer.File.{AtFile, handle_read-handle_write}

-- A memory whose byte at an address is the lowest one of the address.
abbrev ramp : ℕ → ℕ
ramp a = a % 256

abbrev used : VnodeKind → ℕ → FdEntry
used kind flags = record { kind = kind; flags = flags; in_use = true }

abbrev file_fd : FdEntry
file_fd = used (tmp_file 0 10 true) 1

-- Process 5 with a file behind descriptor 3, a pipe behind 4 and 6, and a device behind 7.
abbrev table : ProcFdTable
table = put_fd 3 file_fd (
    put_fd 4 (used (pipe 0 true) 0)
      (put_fd 6 (used (pipe 0 false) 0) (put_fd 7 (used dev_null 524288) (new_table 5))))

abbrev state : Vfs
state = record (start ramp 0) {
  tables = table ∷ empty_table ∷ [];
  pipe_rings = record new_pipe { read_open = true; write_open = true } ∷ [];
}

one-IsValid : IsValid (table ∷ empty_table ∷ [])
unfolding empty_table new_table replicate
one-IsValid = record { sized = sized; unique = unique }
  where
    sized :
        (i : ℕ) (t : ProcFdTable)
        → get_elem? (table ∷ empty_table ∷ []) i ≡ some t
        → length t.fds ≡ 64
    sized zero t e = subst (λ s. length s.fds ≡ 64) (some-injective _ _ e) refl
    sized (suc zero) t e = subst (λ s. length s.fds ≡ 64) (some-injective _ _ e) refl
    sized (suc (suc i)) t e = absurd (cc)

    unique :
        (i j : ℕ) (s t : ProcFdTable)
        → get_elem? (table ∷ empty_table ∷ []) i ≡ some s
        → get_elem? (table ∷ empty_table ∷ []) j ≡ some t
        → s.in_use ≡ true
        → t.in_use ≡ true
        → s.pid ≡ t.pid
        → i ≡ j
    unique zero zero s t a b us ut p = refl
    unique (suc zero) j s t a b us ut p =
        absurd (cc (ap (λ q. q.in_use) (some-injective _ _ a), us))
    unique zero (suc zero) s t a b us ut p =
        absurd (cc (ap (λ q. q.in_use) (some-injective _ _ b), ut))
    unique (suc (suc i)) j s t a b us ut p = absurd (cc)
    unique zero (suc (suc j)) s t a b us ut p = absurd (cc)

file-AtFile : AtFile 5 3 0 table file_fd 0 10 state
unfolding at_fd locate new_table empty_table start replicate empty_file
file-AtFile = record {
  valid = one-IsValid;
  at = refl;
  kind = refl;
  used = refl;
  in_range = omega arith;
  whole = refl;
}

handle_read-handle_write_example :
    (v1 v2 v3 : Vfs) × (handle_write 1 5 3 100 4 state ≡ some (value 4, v1))
    × (handle_lseek 5 3 10 0 v1 ≡ (value 10, v2))
    × (handle_read 1 5 3 200 4 v2 ≡ some (value 4, v3))
    × (load 4 200 v3.memory ≡ load 4 100 state.memory)
handle_read-handle_write_example =
    handle_read-handle_write 0 5 3 0 table file_fd 0 10 100 4 200 state file-AtFile (refl)
      (omega arith) (omega arith)

-- The pipe holds three bytes.
abbrev pipe_state : Vfs
pipe_state = record state {
  pipe_rings =
      record new_pipe {
        ring = (Ring.put_all 4096 (Ring.new 4096) (11 ∷ 12 ∷ 13 ∷ [])).1;
        read_open = true;
        write_open = true;
      }
      ∷ [];
}

pipe_state-Carries : Carries 0 pipe_state (11 ∷ 12 ∷ 13 ∷ [])
pipe_state-Carries = record {
  in_range = omega arith;
  held = (put_all_refines (11 ∷ 12 ∷ 13 ∷ []) (new-Holds 4096 (omega arith))).1;
}

handle_write_refines_example :
    Returns
      (WriteDone 0 (11 ∷ 12 ∷ 13 ∷ []) (load 5 100 ramp) pipe_state)
      (handle_write 1 5 4 100 5 pipe_state)
unfolding at_fd locate new_table empty_table start replicate
handle_write_refines_example =
    handle_write_refines 0 5 4 0 100 5 pipe_state (11 ∷ 12 ∷ 13 ∷ []) pipe_state-Carries
      (0, table, used (pipe 0 true) 0, refl, refl) refl (omega arith)

handle_read_refines_example :
    Returns (ReadDone 0 (11 ∷ 12 ∷ 13 ∷ []) 2 300 pipe_state) (handle_read 1 5 6 300 2 pipe_state)
unfolding at_fd locate new_table empty_table start replicate
handle_read_refines_example =
    handle_read_refines 0 5 6 0 300 2 11 pipe_state (12 ∷ 13 ∷ []) pipe_state-Carries
      (0, table, used (pipe 0 false) 0, refl, refl) (omega arith)

descriptor-handle_fork_dup_example :
    descriptor 8 3 (handle_fork_dup 5 8 state).1.tables ≡ descriptor 5 3 state.tables
unfolding position locate new_table empty_table start replicate
descriptor-handle_fork_dup_example =
    descriptor-handle_fork_dup 5 8 8 3 0 1 table state refl refl refl

descriptor-handle_exec_cloexec_example :
    descriptor 5 7 (handle_exec_cloexec 5 state).1.tables
    ≡ kept_by_exec (descriptor 5 7 state.tables)
descriptor-handle_exec_cloexec_example = descriptor-handle_exec_cloexec 5 5 7 state

descriptor-handle_dup2_example :
    ((handle_dup2 5 3 9 state).0 ≡ value 9)
    × (descriptor 5 9 (handle_dup2 5 3 9 state).1.tables ≡ some file_fd)
unfolding at_fd locate new_table empty_table start replicate
descriptor-handle_dup2_example =
    descriptor-handle_dup2 5 3 9 5 9 0 table file_fd state one-IsValid refl (omega arith)

descriptor-handle_close_example :
    ((handle_close 5 3 state).0 ≡ value 0)
    × (descriptor 5 3 (handle_close 5 3 state).1.tables ≡ none)
unfolding at_fd locate new_table empty_table start replicate
descriptor-handle_close_example =
    descriptor-handle_close 5 3 5 3 0 table file_fd state one-IsValid refl refl

handle_write_isolated_example :
    descriptor 6 3 (After state (handle_write 2 5 3 100 4 state)).tables
    ≡ descriptor 6 3 state.tables
handle_write_isolated_example = handle_write_isolated 2 5 3 100 4 6 3 state (omega arith)

-- Standard input is a device, and descriptor 5 a proxy of it.
abbrev proxy_state : Vfs
proxy_state = record state {
  tables =
      put_fd 0 (used dev_null 0) (
        put_fd 1 (used dev_null 0)
          (put_fd 2 (used dev_null 0) (put_fd 5 (used (dev_stdio 0) 0) (new_table 5))))
      ∷ [];
}

-- What a descriptor of the process shows is what its table says.
kind_at :
    (fd i : ℕ) (t : ProcFdTable) (d e : FdEntry)
    → at_fd 5 fd proxy_state.tables ≡ some (0, get_or proxy_state.tables 0 empty_table, d)
    → at_fd 5 fd proxy_state.tables ≡ some (i, t, e)
    → e.kind ≡ d.kind
kind_at fd i t d e known at = ap (λ x. (x.2).kind) (some-injective _ _ (sym at ∙ known))

plain : (k : ℕ) → k < 3 → IsPlain 5 k proxy_state
unfolding at_fd locate new_table empty_table start replicate
plain zero h i t e at = ap stdio_target (kind_at 0 i t (used dev_null 0) e refl at)
plain (suc zero) h i t e at = ap stdio_target (kind_at 1 i t (used dev_null 0) e refl at)
plain (suc (suc zero)) h i t e at = ap stdio_target (kind_at 2 i t (used dev_null 0) e refl at)
plain (suc (suc (suc k))) h i t e at = absurd (omega (arith, h))

proxied :
    (i : ℕ) (t : ProcFdTable) (e : FdEntry) (target : ℕ)
    → at_fd 5 5 proxy_state.tables ≡ some (i, t, e)
    → stdio_target e.kind ≡ some target
    → target < 3
unfolding at_fd locate new_table empty_table start replicate
proxied i t e target at proxy =
    let same = ap stdio_target (kind_at 5 i t (used (dev_stdio 0) 0) e refl at) in
    let zero_ : target ≡ 0 = some-injective _ _ (sym proxy ∙ same) in omega (arith, zero_)

handle_read_returns_example : (r : Reply × Vfs) × (handle_read 2 5 5 100 4 proxy_state ≡ some r)
unfolding at_fd locate new_table empty_table start replicate
handle_read_returns_example = handle_read_returns 0 5 5 100 4 proxy_state plain proxied

-- Standard input is a proxy of itself.
abbrev loop_state : Vfs
loop_state = record state { tables = put_fd 0 (used (dev_stdio 0) 0) (new_table 5) ∷ [] }

handle_read_loops_example : handle_read 64 5 0 100 4 loop_state ≡ none
unfolding at_fd locate new_table empty_table start replicate
handle_read_loops_example =
    handle_read_loops 64 5 0 100 4 0 (put_fd 0 (used (dev_stdio 0) 0) (new_table 5))
      (used (dev_stdio 0) 0) loop_state refl refl (omega arith)

-- An archive of six bytes: its mark.
abbrev archive_state : Vfs
archive_state = record (start (store 512 (text "070701") ramp) 0) {
  initrd_base = 512;
  initrd_size = 6;
}

find_in_initrd_returns_example :
    (r : Option (List ℕ)) × (find_in_initrd (text "/bin/sh") archive_state ≡ some r)
find_in_initrd_returns_example = find_in_initrd_returns (text "/bin/sh") archive_state

abbrev counter_state : Vfs
counter_state = record (start (store_word 8 100 7 ramp) 0) { eventfd_counters = 5 ∷ [] }

abbrev late_timer : TimerFdEntry
late_timer = record { armed = true; deadline_ticks = 10; interval_ticks = 4; expirations = 1 }

expire_lem_example :
    (25 < (expire 25 late_timer).deadline_ticks)
    × ((expire 25 late_timer).deadline_ticks ≤ 29)
    × ((expire 25 late_timer).deadline_ticks ≡ 10 + ((expire 25 late_timer).expirations - 1) * 4)
expire_lem_example =
    expire_lem 25 late_timer refl (omega arith) (omega arith) (omega arith) (omega arith)

-- /tmp/a
abbrev tmp_a : List ℕ
tmp_a = 47 ∷ 116 ∷ 109 ∷ 112 ∷ 47 ∷ 97 ∷ []
