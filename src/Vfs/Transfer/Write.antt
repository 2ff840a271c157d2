-- ===== src/Vfs/Transfer/Write.antt =====
-- `handle_write` of servers/vfs/src/lib.rs.
use cyanos.Base.{
  ℕ, zero, suc, ◌+◌, ◌-◌, min, bit_and, true, Option, none, some, List, ltb, leb, ◌==◌,
  if◌then◌else◌, length, set, overwrite,
}
use cyanos.Server.Memory.{load, load_word, store}
use cyanos.Server.Ring
use cyanos.Server.Wire.{Reply, value, errno}
use cyanos.Vfs.{
  Vfs, VnodeKind, FdEntry, ProcFdTable, TmpFileEntry, dev_null, dev_zero, pipe, tmp_file, event_fd,
  dev_urandom, dev_fb, at_fd, put_entry, pipe_ring_size, max_tmp_size, max_u64,
}
use cyanos.Vfs.Transfer.{
  pipe_at, put_ring, file_at, counter_at, fb_virt, fb_size, move_to, stdio_target,
}

abbrev pub o_append : ℕ
o_append = 1024

unfoldable pub write_pipe : ℕ → ℕ → ℕ → Vfs → Reply × Vfs
write_pipe ring buf count v =
    let r = pipe_at ring v in
    let (n, ring') = Ring.put_all pipe_ring_size r.ring (load count buf v.memory) in
    if r.read_open then (value n, put_ring ring ring' v) else (errno 32, v)

-- The file with the bytes at a position.
abbrev pub write_at : ℕ → List ℕ → TmpFileEntry → TmpFileEntry
write_at cur bs f = record f {
  data_ = overwrite cur bs f.data_;
  len = if ltb f.len (cur + length bs) then cur + length bs else f.len;
}

unfoldable pub write_file : ℕ → ProcFdTable → ℕ → FdEntry → ℕ → ℕ → ℕ → ℕ → Vfs → Reply × Vfs
write_file i t fd e idx pos buf count v =
    let cur = if bit_and e.flags o_append == 0 then pos else (file_at idx v).len in
    let n = min count (max_tmp_size - cur) in
    if n == 0 then (errno 28, v) else (
      value n,
      put_entry i t fd (move_to e (cur + n)) (record v {
        tmp_files = set v.tmp_files idx (write_at cur (load n buf v.memory) (file_at idx v));
      }),
    )

unfoldable pub write_counter : ℕ → ℕ → ℕ → Vfs → Reply × Vfs
write_counter slot buf count v =
    let addval = load_word 8 buf v.memory in
    if ltb count 8 then (errno 22, v) else if addval == max_u64 then (errno 22, v) else (
      value 8,
      record v {
        eventfd_counters = set v.eventfd_counters slot (min (counter_at slot v + addval) max_u64);
      },
    )

-- `handle_write` for each kind of vnode but the proxies of the standard streams: `t` is the table
-- of the caller, at index `i`, and `e` its entry for `fd`.
unfoldable pub write_vnode : ℕ → ProcFdTable → ℕ → FdEntry → VnodeKind → ℕ → ℕ → Vfs → Reply × Vfs
unfolding write_pipe write_file write_counter
write_vnode i t fd e dev_null buf count v = (value count, v)
write_vnode i t fd e dev_zero buf count v = (value count, v)
write_vnode i t fd e dev_urandom buf count v = (value count, v)
write_vnode i t fd e (pipe ring true) buf count v = write_pipe ring buf count v
write_vnode i t fd e (tmp_file idx pos true) buf count v = write_file i t fd e idx pos buf count v
write_vnode i t fd e (event_fd slot) buf count v = write_counter slot buf count v
write_vnode i t fd e (dev_fb cur) buf count v =
    if v.fb.base == 0
    then (errno 19, v)
    else if leb (fb_size v) cur
    then (value 0, v)
    else (let n = min count (fb_size v - cur) in
        let v' = put_entry i t fd (move_to e (cur + n)) v in
        (value n, record v' { memory = store (fb_virt v cur) (load n buf v.memory) v.memory }))
write_vnode i t fd e k buf count v = (errno 9, v)

-- On fuel for the proxies, as `handle_read`.
unfoldable pub handle_write : ℕ → ℕ → ℕ → ℕ → ℕ → Vfs → Option (Reply × Vfs)
handle_write zero pid fd buf count v = none
handle_write (suc fuel) pid fd buf count v =
    if count == 0 then some (value 0, v) else elim (at_fd pid fd v.tables) [
      | none ↦ some (errno 9, v)
      | some (i, t, e) ↦ elim (stdio_target e.kind) [
        | some target ↦ handle_write fuel pid target buf count v
        | none ↦ some (write_vnode i t fd e e.kind buf count v)
      ]
    ]
