-- ===== src/Vfs/Transfer/Proxy.antt =====
-- The proxies of the standard streams in `handle_read` of servers/vfs/src/lib.rs: reads that return and
-- reads that do not.
use cyanos.Base.{
  ℕ, zero, suc, ◌<◌, ◌≡◌, refl, inl, inr, false, none, some, arith, ◌==◌, Bool-cases, Option-cases,
}
use cyanos.Server.Wire.{Reply, value, errno}
use cyanos.Vfs.{Vfs, FdEntry, ProcFdTable, at_fd}
use cyanos.Vfs.Transfer.{handle_read, read_vnode, stdio_target}

-- A descriptor of the process that is open is no proxy.
abbrev pub IsPlain : ℕ → ℕ → Vfs → Type 0
IsPlain pid fd v =
    (i : ℕ) (t : ProcFdTable) (e : FdEntry)
    → at_fd pid fd v.tables ≡ some (i, t, e)
    → stdio_target e.kind ≡ none

read_plain :
    (fuel pid fd buf count : ℕ) (v : Vfs)
    → IsPlain pid fd v
    → (r : Reply × Vfs) × (handle_read (suc fuel) pid fd buf count v ≡ some r)
unfolding handle_read
read_plain fuel pid fd buf count v plain = elim (Bool-cases (count == 0)) [
  | inl nothing ↦ ((value 0, v), ground arith)
  | inr some_ ↦ elim (Option-cases (at_fd pid fd v.tables)) [
    | inl shut ↦ ((errno 9, v), rw (some_, shut, handle_read) refl)
    | inr ((i, t, e), at) ↦
        (read_vnode i t fd e e.kind buf count v, rw (some_, at, plain i t e at, handle_read) refl)
  ]
]

-- A read returns if the first three descriptors of the process are no proxies and the descriptor is
-- no proxy or one of those three: two calls are enough.
pub handle_read_returns :
    (fuel pid fd buf count : ℕ) (v : Vfs)
    → ((k : ℕ) → k < 3 → IsPlain pid k v)
    → ((i : ℕ) (t : ProcFdTable) (e : FdEntry) (target : ℕ)
        → at_fd pid fd v.tables ≡ some (i, t, e)
        → stdio_target e.kind ≡ some target
        → target < 3)
    → (r : Reply × Vfs) × (handle_read (suc (suc fuel)) pid fd buf count v ≡ some r)
unfolding handle_read
handle_read_returns fuel pid fd buf count v plain proxies = elim (Bool-cases (count == 0)) [
  | inl nothing ↦ ((value 0, v), ground arith)
  | inr some_ ↦ elim (Option-cases (at_fd pid fd v.tables)) [
    | inl shut ↦ ((errno 9, v), rw (some_, shut, handle_read) refl)
    | inr ((i, t, e), at) ↦ elim (Option-cases (stdio_target e.kind)) [
      | inl own ↦ (read_vnode i t fd e e.kind buf count v, rw (some_, at, own, handle_read) refl)
      | inr (target, stdio) ↦
          let (r, done) =
            read_plain fuel pid target buf count v (plain target (proxies i t e target at stdio)) in
          (r, rw (some_, at, stdio, handle_read) done)
    ]
  ]
]

-- A read of a proxy that names itself never returns: no number of calls is enough.
pub handle_read_loops :
    (fuel pid fd buf count i : ℕ) (t : ProcFdTable) (e : FdEntry) (v : Vfs)
    → at_fd pid fd v.tables ≡ some (i, t, e)
    → stdio_target e.kind ≡ some fd
    → 0 < count
    → handle_read fuel pid fd buf count v ≡ none
unfolding handle_read
handle_read_loops zero pid fd buf count i t e v at self some_ = refl
handle_read_loops (suc fuel) pid fd buf count i t e v at self some_ =
    let nonzero : (count == 0) ≡ false = ground arith in
    rw (nonzero, at, self, handle_read)
      (handle_read_loops fuel pid fd buf count i t e v at self some_)
