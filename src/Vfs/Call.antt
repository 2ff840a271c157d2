-- ===== src/Vfs/Call.antt =====
-- `handle_ioctl`, `handle_fd_path`, `init` and the dispatch `handle` of servers/vfs/src/lib.rs.
use cyanos.Base.{
  ℕ, ◌+◌, ◌-◌, ◌%◌, ◌^◌, min, ◌⊎◌, inl, inr, Bool, true, false, not, ◌||◌, Option, none, some, List,
  ◌++◌, ◌==◌, if◌then◌else◌, length, set, locate, take,
}
use cyanos.Base.Text.{text}
use cyanos.Ipc.Message.{Message}
use cyanos.Ipc.Port.{PortTable}
use cyanos.Ipc.Port
use cyanos.Server.Memory.{store, store_word}
use cyanos.Server.Wire.{Reply, value, errno, arg, make_reply}
use cyanos.Vfs.{
  Vfs, VnodeKind, FdEntry, ram_file, dev_null, dev_zero, pipe, tmp_file, event_fd, timer_fd,
  dev_urandom, dev_stdio, dev_fb, at_fd, put_fd, is_unused, empty_table,
}
use cyanos.Vfs.Descriptor.{
  handle_close, handle_dup2, handle_fcntl, handle_fork_dup, handle_exec_cloexec, handle_close_all,
  handle_alloc_fd,
}
use cyanos.Vfs.Dir.{handle_getdents64}
use cyanos.Vfs.Event.{
  handle_eventfd, handle_timerfd_create, handle_timerfd_settime, handle_timerfd_gettime,
}
use cyanos.Vfs.Open.{handle_open}
use cyanos.Vfs.Pipe.{handle_pipe}
use cyanos.Vfs.Proc.{Facts, decimal}
use cyanos.Vfs.Ramfs.{RamEntry, ramfs}
use cyanos.Vfs.Seek.{handle_lseek}
use cyanos.Vfs.Tmp.{handle_unlink, handle_mkdir, handle_ftruncate, handle_rename}
use cyanos.Vfs.Transfer.{pipe_at, file_at, timer_at, counter_at, handle_read}
use cyanos.Vfs.Transfer.Write.{handle_write}

abbrev is_fb : VnodeKind → Bool
is_fb (dev_fb pos) = true
is_fb k = false

abbrev is_nonzero : ℕ → ℕ
is_nonzero n = if n == 0 then 0 else 8

-- The bytes that a read would find; none is `ENOTTY`.
unfoldable bytes_available : VnodeKind → Vfs → Option ℕ
bytes_available (pipe ring false) v = some (pipe_at ring v).count
bytes_available (ram_file d pos) v = some (length d - pos)
bytes_available (tmp_file idx pos writable) v = some ((file_at idx v).len - pos)
bytes_available (event_fd slot) v = some (is_nonzero (counter_at slot v))
bytes_available (timer_fd slot) v = some (is_nonzero (timer_at slot v).expirations)
bytes_available k v = none

-- The geometry of the framebuffer, as `fb_var_screeninfo` starts.
abbrev store_geometry : ℕ → Vfs → Vfs
store_geometry p v = record v {
  memory = store_word 4 p v.fb.width (
      store_word 4 (p + 4) v.fb.height (
        store_word 4 (p + 8) v.fb.width (
          store_word 4 (p + 12) v.fb.height (
            store_word 4 (p + 16) 0 (
              store_word 4 (p + 20) 0
                (store_word 4 (p + 24) 32 (store_word 4 (p + 28) v.fb.pitch v.memory)))))));
}

-- `FIONREAD`.
unfoldable available_ioctl : ℕ → ℕ → ℕ → ℕ → Vfs → Reply × Vfs
unfolding bytes_available
available_ioctl pid fd cmd arg v =
    if not (cmd == 21531)
    then (errno 25, v)
    else if arg == 0
    then (errno 14, v)
    else elim (at_fd pid fd v.tables) [
      | none ↦ (errno 9, v)
      | some (i, t, e) ↦ elim (bytes_available e.kind v) [
        | none ↦ (errno 25, v)
        | some n ↦ (value 0, record v { memory = store_word 4 arg n v.memory })
      ]
    ]

-- `FBIOGET_VSCREENINFO` is 0x4600.
unfoldable pub handle_ioctl : ℕ → ℕ → ℕ → ℕ → Vfs → Reply × Vfs
unfolding available_ioctl
handle_ioctl pid fd cmd arg v =
    if cmd == 17920
    then elim (at_fd pid fd v.tables) [
      | none ↦ (errno 9, v)
      | some (i, t, e) ↦
          if is_fb e.kind then (value 0, store_geometry arg v) else available_ioctl pid fd cmd arg v
    ]
    else available_ioctl pid fd cmd arg v

abbrev first_slice : (RamEntry → Bool) → List RamEntry → Option (List ℕ)
first_slice p es = elim (locate p es) [ none ↦ none | some (i, e) ↦ some e.path ]

module _ (is_slice : List ℕ → RamEntry → Bool) where
  -- The name of a vnode, or an error number. `is_slice` says whether the bytes of a vnode are the
  -- very slice of a static file, which the source compares by address.
  unfoldable fd_name : VnodeKind → Vfs → List ℕ ⊎ ℕ
  unfolding text ramfs decimal
  fd_name dev_null v = inl (text "/dev/null")
  fd_name dev_zero v = inl (text "/dev/zero")
  fd_name (pipe ring is_write) v = inl (text "pipe:[" ++ decimal ring ++ text "]")
  fd_name (ram_file d pos) v = elim (first_slice (is_slice d) ramfs) [
    | none ↦ inr 2
    | some path ↦ inl path
  ]
  fd_name (tmp_file idx pos writable) v =
      let f = file_at idx v in if f.in_use then inl (take f.path_len f.path) else inr 9
  fd_name (event_fd slot) v = inl (text "eventfd")
  fd_name (timer_fd slot) v = inl (text "timerfd")
  fd_name dev_urandom v = inl (text "/dev/urandom")
  fd_name (dev_stdio fd) v =
      if fd == 0
      then inl (text "/dev/stdin")
      else if fd == 1
      then inl (text "/dev/stdout")
      else inl (text "/dev/stderr")
  fd_name k v = inr 9

  unfoldable handle_fd_path : ℕ → ℕ → ℕ → ℕ → Vfs → Reply × Vfs
  unfolding fd_name
  handle_fd_path pid fd buf_ptr buf_len v =
      if (buf_ptr == 0) || (buf_len == 0) then (errno 14, v) else elim (at_fd pid fd v.tables) [
        | none ↦ (errno 9, v)
        | some (i, t, e) ↦ elim (fd_name e.kind v) [
          | inr err ↦ (errno err, v)
          | inl name ↦ (
            value (min (length name) buf_len),
            record v { memory = store buf_ptr (take buf_len name) v.memory },
          )
        ]
      ]

  abbrev returns : Reply × Vfs → Option (Reply × Vfs)
  returns r = some r

  -- The result of a call. A proxy of a standard stream may name itself, and then the call does not
  -- return: `none` says that 64 turns were not enough, or that the call panics.
  unfoldable pub dispatch : Facts → ℕ → Message → Vfs → Option (Reply × Vfs)
  unfolding handle_fd_path
  dispatch f pid msg v =
      let a : ℕ → ℕ = λ n. arg msg n in
      let w : ℕ → ℕ = λ n. arg msg n % 2 ^ 32 in
      if msg.tag == 16
      then returns (handle_open f pid (a 0) (w 1) v)
      else if msg.tag == 17
      then handle_read 64 pid (a 0) (a 1) (a 2) v
      else if msg.tag == 18
      then handle_write 64 pid (a 0) (a 1) (a 2) v
      else if msg.tag == 19
      then returns (handle_close pid (a 0) v)
      else if msg.tag == 21
      then returns (handle_lseek pid (a 0) (a 1) (w 2) v)
      else if msg.tag == 23
      then returns (handle_pipe pid (a 0) (a 1) v)
      else if msg.tag == 24
      then returns (handle_dup2 pid (a 0) (a 1) v)
      else if msg.tag == 25
      then returns (handle_fcntl pid (a 0) (a 1) (a 2) v)
      else if msg.tag == 26
      then returns (handle_fork_dup (w 0) (w 1) v)
      else if msg.tag == 27
      then returns (handle_exec_cloexec (w 0) v)
      else if msg.tag == 28
      then returns (handle_close_all (w 0) v)
      else if msg.tag == 29
      then handle_getdents64 pid (a 0) (a 1) (a 2) v
      else if msg.tag == 30
      then returns (handle_alloc_fd pid (a 0) v)
      else if msg.tag == 31
      then returns (handle_unlink (a 0) v)
      else if msg.tag == 32
      then returns (handle_mkdir (a 0) v)
      else if msg.tag == 33
      then returns (handle_ftruncate pid (a 0) (a 1) v)
      else if msg.tag == 34
      then returns (handle_rename (a 0) (a 1) v)
      else if msg.tag == 35
      then returns (handle_fd_path pid (a 0) (a 1) (a 2) v)
      else if msg.tag == 36
      then returns (handle_eventfd pid (a 0) v)
      else if msg.tag == 37
      then returns (handle_timerfd_create pid v)
      else if msg.tag == 38
      then returns (handle_timerfd_settime pid (a 0) (a 1) (a 2) v)
      else if msg.tag == 39
      then returns (handle_timerfd_gettime pid (a 0) (a 1) v)
      else if msg.tag == 40
      then returns (handle_ioctl pid (a 0) (a 1) (a 2) v)
      else returns (errno 38, v)

  unfoldable pub handle : Facts → ℕ → Message → Vfs → Option (Message × Vfs)
  unfolding dispatch make_reply
  handle f pid msg v = elim (dispatch f pid msg v) [
    | none ↦ none
    | some (r, v') ↦ some (make_reply r, v')
  ]

abbrev null_fd : FdEntry
null_fd = record { kind = dev_null; flags = 0; in_use = true }

-- The table of the first process, whose standard streams are the null device.
unfoldable register_init : Vfs → Vfs
unfolding empty_table
register_init v = elim (locate is_unused v.tables) [
  | none ↦ v
  | some (i, t) ↦
      let t' = put_fd 2 null_fd (put_fd 1 null_fd (put_fd 0 null_fd t)) in
      record v { tables = set v.tables i (record t' { in_use = true; pid = 1 }) }
]

-- The port of the server, if one is left, and the table of the first process.
unfoldable pub init : ℕ → PortTable → Vfs → Option ℕ × PortTable × Vfs
unfolding register_init Port.create
init owner_pid ports v =
    let (port, ports') = Port.create owner_pid ports in
    elim port [ none ↦ (none, ports', v) | some p ↦ (some p, ports', register_init v) ]
