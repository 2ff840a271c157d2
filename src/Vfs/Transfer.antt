-- ===== src/Vfs/Transfer.antt =====
-- `handle_read` and `handle_write` of servers/vfs/src/lib.rs.
pub mod Write
pub mod Isolation
pub mod File
pub mod Proxy
use cyanos.Base.{
  ℕ, zero, suc, ◌+◌, ◌-◌, ◌*◌, ◌/◌, ◌%◌, ◌^◌, min, bit_xor, false, ◌&&◌, Option, none, some, List,
  [], ◌∷◌, ltb, leb, ◌==◌, if◌then◌else◌, length, get_or, set, replicate, drop, add64, take,
}
use cyanos.Base.Bits.{and_not}
use cyanos.Server.Memory.{UserMemory, load, store, store_word}
use cyanos.Server.Ring
use cyanos.Server.Ring.{ByteRing}
use cyanos.Server.Wire.{Reply, value, errno}
use cyanos.Vfs.{
  Vfs, VnodeKind, FdEntry, ProcFdTable, FrameBuffer, TimerFdEntry, PipeRing, TmpFileEntry, Tables,
  absent, ram_file, dev_null, dev_zero, pipe, tmp_file, event_fd, timer_fd, dev_urandom, dev_stdio,
  dev_fb, at_fd, put_entry, pipe_ring_size, new_pipe, empty_file, free_timer,
}

-- `lfsr_next`: the byte and the next state.
abbrev lfsr_step : ℕ → ℕ → ℕ
lfsr_step now state =
    let mixed = bit_xor state (now * 11400714819323198485 % 2 ^ 64) in
    if mixed % 2 == 0 then mixed / 2 else bit_xor (mixed / 2) 12970366926827028480

unfoldable lfsr_bytes : ℕ → ℕ → ℕ → List ℕ × ℕ
lfsr_bytes now zero state = ([], state)
lfsr_bytes now (suc n) state =
    let state' = lfsr_step now state in
    let (bs, last) = lfsr_bytes now n state' in (state' % 256 ∷ bs, last)

-- The address of byte `cur` of the framebuffer.
abbrev pub fb_virt : Vfs → ℕ → ℕ
fb_virt v cur =
    if leb 18446462598732840960 v.fb.base
    then add64 v.fb.base cur
    else add64 (add64 v.fb.base cur) v.hhdm_offset

abbrev pub fb_size : Vfs → ℕ
fb_size v = v.fb.height * v.fb.pitch

-- The indices that a vnode holds come from `position` in the array they index, so that the default
-- of these reads is not used.
abbrev pub pipe_at : ℕ → Vfs → PipeRing
pipe_at ring v = get_or v.pipe_rings ring new_pipe

abbrev pub put_ring : ℕ → ByteRing → Vfs → Vfs
put_ring ring bytes v = record v {
  pipe_rings = set v.pipe_rings ring (record (pipe_at ring v) { ring = bytes });
}

abbrev pub file_at : ℕ → Vfs → TmpFileEntry
file_at idx v = get_or v.tmp_files idx empty_file

abbrev pub timer_at : ℕ → Vfs → TimerFdEntry
timer_at slot v = get_or v.timerfd_pool slot free_timer

abbrev pub counter_at : ℕ → Vfs → ℕ
counter_at slot v = get_or v.eventfd_counters slot 0

abbrev pub put_bytes : ℕ → List ℕ → Vfs → Vfs
put_bytes buf bs v = record v { memory = store buf bs v.memory }

-- How far a file is read, in a descriptor.
abbrev pub at_pos : VnodeKind → ℕ → VnodeKind
at_pos (ram_file d pos) p = ram_file d p
at_pos (tmp_file idx pos writable) p = tmp_file idx p writable
at_pos (dev_fb pos) p = dev_fb p
at_pos k p = k

abbrev pub move_to : FdEntry → ℕ → FdEntry
move_to e p = record e { kind = at_pos e.kind p }

-- A timer whose deadline has passed counts its expirations.
unfoldable pub expire : ℕ → TimerFdEntry → TimerFdEntry
expire now e =
    if e.armed && leb e.deadline_ticks now
    then (let extra =
          if e.interval_ticks == 0 then 1 else (now - e.deadline_ticks) / e.interval_ticks + 1 in
        let counted = add64 e.expirations extra in
        if e.interval_ticks == 0
        then record e { expirations = counted; armed = false }
        else record e {
          expirations = counted;
          deadline_ticks = add64 e.deadline_ticks (extra * e.interval_ticks);
        })
    else e

unfoldable pub read_pipe : ℕ → ℕ → ℕ → Vfs → Reply × Vfs
read_pipe ring buf count v =
    let r = pipe_at ring v in
    let (bs, ring') = Ring.get_some pipe_ring_size (min count 4096) r.ring in
    if r.count == 0
    then (if r.write_open then (errno 11, v) else (value 0, v))
    else (value (length bs), put_bytes buf bs (put_ring ring ring' v))

unfoldable pub read_timer : ℕ → ℕ → ℕ → Vfs → Reply × Vfs
unfolding expire
read_timer slot buf count v =
    if ltb count 8
    then (errno 22, v)
    else (let e = expire v.now (timer_at slot v) in
        if e.expirations == 0
        then (errno 11, record v { timerfd_pool = set v.timerfd_pool slot e })
        else (
          value 8,
          record v {
            timerfd_pool = set v.timerfd_pool slot (record e { expirations = 0 });
            memory = store_word 8 buf e.expirations v.memory;
          },
        ))

unfoldable pub read_counter : ℕ → ℕ → ℕ → Vfs → Reply × Vfs
read_counter slot buf count v =
    if ltb count 8 then (errno 22, v) else if counter_at slot v == 0 then (errno 11, v) else (
      value 8,
      record v {
        eventfd_counters = set v.eventfd_counters slot 0;
        memory = store_word 8 buf (counter_at slot v) v.memory;
      },
    )

-- `handle_read` for each kind of vnode but the proxies of the standard streams: `t` is the table of
-- the caller, at index `i`, and `e` its entry for `fd`.
unfoldable pub read_vnode : ℕ → ProcFdTable → ℕ → FdEntry → VnodeKind → ℕ → ℕ → Vfs → Reply × Vfs
unfolding lfsr_bytes replicate read_pipe read_timer read_counter
read_vnode i t fd e dev_null buf count v = (value 0, v)
read_vnode i t fd e dev_zero buf count v =
    let n = min count 4096 in (value n, put_bytes buf (replicate n 0) v)
read_vnode i t fd e dev_urandom buf count v =
    let (bs, state) = lfsr_bytes v.now (min count 4096) v.lfsr_state in
    (value (min count 4096), put_bytes buf bs (record v { lfsr_state = state }))
read_vnode i t fd e (dev_fb cur) buf count v =
    if v.fb.base == 0
    then (errno 19, v)
    else if leb (fb_size v) cur
    then (value 0, v)
    else (let n = min count (fb_size v - cur) in
        (
          value n,
          put_bytes buf (load n (fb_virt v cur) v.memory)
              (put_entry i t fd (move_to e (cur + n)) v),
        ))
read_vnode i t fd e (ram_file d pos) buf count v =
    let n = min count (length d - pos) in
    if n == 0
    then (value 0, v)
    else (value n, put_bytes buf (take n (drop pos d)) (put_entry i t fd (move_to e (pos + n)) v))
read_vnode i t fd e (pipe ring false) buf count v = read_pipe ring buf count v
read_vnode i t fd e (tmp_file idx cur writable) buf count v =
    let n = min (min count ((file_at idx v).len - cur)) 4096 in
    if n == 0 then (value 0, v) else (
      value n,
      put_bytes buf (take n (drop cur (file_at idx v).data_))
          (put_entry i t fd (move_to e (cur + n)) v),
    )
read_vnode i t fd e (event_fd slot) buf count v = read_counter slot buf count v
read_vnode i t fd e (timer_fd slot) buf count v = read_timer slot buf count v
read_vnode i t fd e k buf count v = (errno 9, v)

abbrev pub stdio_target : VnodeKind → Option ℕ
stdio_target (dev_stdio fd) = some fd
stdio_target k = none

-- A proxy of a standard stream reads that descriptor instead, which may be a proxy again: on fuel
-- for the calls, `none` if it runs out.
unfoldable pub handle_read : ℕ → ℕ → ℕ → ℕ → ℕ → Vfs → Option (Reply × Vfs)
handle_read zero pid fd buf count v = none
handle_read (suc fuel) pid fd buf count v =
    if count == 0 then some (value 0, v) else elim (at_fd pid fd v.tables) [
      | none ↦ some (errno 9, v)
      | some (i, t, e) ↦ elim (stdio_target e.kind) [
        | some target ↦ handle_read fuel pid target buf count v
        | none ↦ some (read_vnode i t fd e e.kind buf count v)
      ]
    ]
