-- ===== src/Vfs/Transfer/Isolation.antt =====
-- A transfer of servers/vfs/src/lib.rs changes no descriptor of another process.
use cyanos.Base.{
  ℕ, zero, suc, ◌+◌, ◌-◌, min, ◌≡◌, refl, ap, ◌∙◌, ◌≢◌, ◌⊎◌, inl, inr, Bool, true, false, Option,
  none, some, arith, leb, ◌==◌, if◌then◌else◌, Bool-cases, Option-cases, length, set,
  locate-set_other,
}
use cyanos.Server.Wire.{Reply}
use cyanos.Vfs.{
  Vfs, VnodeKind, FdEntry, ProcFdTable, Tables, at_fd, is_of, put_fd, absent, ram_file, dev_null,
  dev_zero, pipe, tmp_file, event_fd, timer_fd, dev_urandom, dev_stdio, dev_fb,
}
use cyanos.Vfs.Table.{descriptor, at_fd_lem, find_tbl-Found, descriptor_same}
use cyanos.Vfs.Transfer.{
  handle_read, read_vnode, read_pipe, read_timer, read_counter, stdio_target, move_to, fb_size,
  file_at,
}
use cyanos.Vfs.Transfer.Write.{handle_write, write_vnode, write_pipe, write_file, write_counter}

-- The tables are the same, or the entry of one descriptor has moved.
abbrev Moves : ℕ → ProcFdTable → ℕ → FdEntry → Tables → Tables → Type 0
Moves i t fd e tbls tbls' =
    (tbls' ≡ tbls) ⊎ ((p : ℕ) × (tbls' ≡ set tbls i (put_fd fd (move_to e p) t)))

read_pipe-tables : (ring buf count : ℕ) (v : Vfs) → (read_pipe ring buf count v).1.tables ≡ v.tables
unfolding read_pipe
read_pipe-tables ring buf count v = ground arith

read_timer-tables :
    (slot buf count : ℕ) (v : Vfs) → (read_timer slot buf count v).1.tables ≡ v.tables
unfolding read_timer
read_timer-tables slot buf count v = ground arith

read_counter-tables :
    (slot buf count : ℕ) (v : Vfs) → (read_counter slot buf count v).1.tables ≡ v.tables
unfolding read_counter
read_counter-tables slot buf count v = ground arith

write_pipe-tables :
    (ring buf count : ℕ) (v : Vfs) → (write_pipe ring buf count v).1.tables ≡ v.tables
unfolding write_pipe
write_pipe-tables ring buf count v = ground arith

write_counter-tables :
    (slot buf count : ℕ) (v : Vfs) → (write_counter slot buf count v).1.tables ≡ v.tables
unfolding write_counter
write_counter-tables slot buf count v = ground arith

module _ (i fd : ℕ) (t : ProcFdTable) (e : FdEntry) (v : Vfs) where
  -- The result of a branch that gives nothing, or moves the descriptor.
  branch :
      (b : Bool) (r s : Reply × Vfs)
      → Moves i t fd e v.tables r.1.tables
      → Moves i t fd e v.tables s.1.tables
      → Moves i t fd e v.tables (if b then r else s).1.tables
  branch true r s m n = m
  branch false r s m n = n

  read_vnode-Moves :
      (k : VnodeKind) (buf count : ℕ)
      → Moves i t fd e v.tables (read_vnode i t fd e k buf count v).1.tables
  unfolding read_vnode
  read_vnode-Moves absent buf count = inl refl
  read_vnode-Moves (ram_file d pos) buf count =
      branch (min count (length d - pos) == 0) _ _ (inl refl)
        (inr (pos + min count (length d - pos), refl))
  read_vnode-Moves dev_null buf count = inl refl
  read_vnode-Moves dev_zero buf count = inl refl
  read_vnode-Moves (pipe ring true) buf count = inl refl
  read_vnode-Moves (pipe ring false) buf count = inl (read_pipe-tables ring buf count v)
  read_vnode-Moves (tmp_file idx pos writable) buf count =
      let n : ℕ = min (min count ((file_at idx v).len - pos)) 4096 in
      branch (n == 0) _ _ (inl refl) (inr (pos + n, refl))
  read_vnode-Moves (event_fd slot) buf count = inl (read_counter-tables slot buf count v)
  read_vnode-Moves (timer_fd slot) buf count = inl (read_timer-tables slot buf count v)
  read_vnode-Moves dev_urandom buf count = inl refl
  read_vnode-Moves (dev_stdio target) buf count = inl refl
  read_vnode-Moves (dev_fb pos) buf count =
      branch (v.fb.base == 0) _ _ (inl refl) (
        branch (leb (fb_size v) pos) _ _ (inl refl) (inr (pos + min count (fb_size v - pos), refl)))

  write_file-Moves :
      (idx pos buf count : ℕ)
      → Moves i t fd e v.tables (write_file i t fd e idx pos buf count v).1.tables
  unfolding write_file
  write_file-Moves idx pos buf count = branch _ _ _ (inl refl) (inr (_, refl))

  write_vnode-Moves :
      (k : VnodeKind) (buf count : ℕ)
      → Moves i t fd e v.tables (write_vnode i t fd e k buf count v).1.tables
  unfolding write_vnode
  write_vnode-Moves absent buf count = inl refl
  write_vnode-Moves (ram_file d pos) buf count = inl refl
  write_vnode-Moves dev_null buf count = inl refl
  write_vnode-Moves dev_zero buf count = inl refl
  write_vnode-Moves (pipe ring true) buf count = inl (write_pipe-tables ring buf count v)
  write_vnode-Moves (pipe ring false) buf count = inl refl
  write_vnode-Moves (tmp_file idx pos true) buf count = write_file-Moves idx pos buf count
  write_vnode-Moves (tmp_file idx pos false) buf count = inl refl
  write_vnode-Moves (event_fd slot) buf count = inl (write_counter-tables slot buf count v)
  write_vnode-Moves (timer_fd slot) buf count = inl refl
  write_vnode-Moves dev_urandom buf count = inl refl
  write_vnode-Moves (dev_stdio target) buf count = inl refl
  write_vnode-Moves (dev_fb pos) buf count =
      branch (v.fb.base == 0) _ _ (inl refl) (
        branch (leb (fb_size v) pos) _ _ (inl refl) (inr (pos + min count (fb_size v - pos), refl)))

-- A move in the table of one process is not seen by another.
descriptor-Moves :
    (pid fd pid' fd' i : ℕ) (t : ProcFdTable) (e : FdEntry) (tbls tbls' : Tables)
    → at_fd pid fd tbls ≡ some (i, t, e)
    → pid' ≢ pid
    → Moves i t fd e tbls tbls'
    → descriptor pid' fd' tbls' ≡ descriptor pid' fd' tbls
descriptor-Moves pid fd pid' fd' i t e tbls tbls' at other (inl same) =
    ap (descriptor pid' fd') same
descriptor-Moves pid fd pid' fd' i t e tbls tbls' at other (inr (p, eq)) =
    let (found, open_) = at_fd_lem pid fd i t e tbls at in
    let (row, used, same) = find_tbl-Found pid tbls i t found in
    let t' : ProcFdTable = put_fd fd (move_to e p) t in
    let kept = locate-set_other (is_of pid') tbls i t t' row (ground arith) (ground arith) in
    ap (descriptor pid' fd') eq ∙ descriptor_same pid' fd' (set tbls i t') tbls kept

-- The tables after a call that returns.
abbrev pub After : Vfs → Option (Reply × Vfs) → Vfs
After v none = v
After v (some r) = r.1

-- A read changes no descriptor of a process other than its caller, whichever vnode it reads and
-- whether it succeeds or not.
handle_read_isolated :
    (fuel pid fd buf count pid' fd' : ℕ) (v : Vfs)
    → pid' ≢ pid
    → descriptor pid' fd' (After v (handle_read fuel pid fd buf count v)).tables
      ≡ descriptor pid' fd' v.tables
unfolding handle_read
handle_read_isolated zero pid fd buf count pid' fd' v other = refl
handle_read_isolated (suc fuel) pid fd buf count pid' fd' v other = elim (Bool-cases (count == 0)) [
  | inl nothing ↦ rw nothing refl
  | inr some_ ↦ elim (Option-cases (at_fd pid fd v.tables)) [
    | inl shut ↦ rw (some_, shut, handle_read) refl
    | inr ((i, t, e), at) ↦ elim (Option-cases (stdio_target e.kind)) [
      | inl own ↦
          rw (some_, at, own, handle_read)
            (descriptor-Moves pid fd pid' fd' i t e v.tables
              (read_vnode i t fd e e.kind buf count v).1.tables at other
              (read_vnode-Moves i fd t e v e.kind buf count))
      | inr (target, stdio) ↦
          rw (some_, at, stdio, handle_read)
            (handle_read_isolated fuel pid target buf count pid' fd' v other)
    ]
  ]
]

-- A write changes no descriptor of a process other than its caller, whichever vnode it writes and
-- whether it succeeds or not.
pub handle_write_isolated :
    (fuel pid fd buf count pid' fd' : ℕ) (v : Vfs)
    → pid' ≢ pid
    → descriptor pid' fd' (After v (handle_write fuel pid fd buf count v)).tables
      ≡ descriptor pid' fd' v.tables
unfolding handle_write
handle_write_isolated zero pid fd buf count pid' fd' v other = refl
handle_write_isolated (suc fuel) pid fd buf count pid' fd' v other =
    elim (Bool-cases (count == 0)) [
      | inl nothing ↦ rw nothing refl
      | inr some_ ↦ elim (Option-cases (at_fd pid fd v.tables)) [
        | inl shut ↦ rw (some_, shut, handle_write) refl
        | inr ((i, t, e), at) ↦ elim (Option-cases (stdio_target e.kind)) [
          | inl own ↦
              rw (some_, at, own, handle_write)
                (descriptor-Moves pid fd pid' fd' i t e v.tables
                  (write_vnode i t fd e e.kind buf count v).1.tables at other
                  (write_vnode-Moves i fd t e v e.kind buf count))
          | inr (target, stdio) ↦
              rw (some_, at, stdio, handle_write)
                (handle_write_isolated fuel pid target buf count pid' fd' v other)
        ]
      ]
    ]
