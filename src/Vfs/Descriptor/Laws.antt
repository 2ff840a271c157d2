-- ===== src/Vfs/Descriptor/Laws.antt =====
-- What close and dup2 of servers/vfs/src/lib.rs do to the descriptors that the processes see.
use cyanos.Base.{ℕ, ◌<◌, ◌≡◌, ◌&&◌, none, some, arith, ◌==◌, if◌then◌else◌, refl, ap, ◌∙◌, Bool}
use cyanos.Server.Wire.{value}
use cyanos.Vfs.{
  Vfs, FdEntry, ProcFdTable, at_fd, empty_fd, max_fds, put_entry, VnodeKind, event_fd, timer_fd,
  ram_file, pipe, tmp_file, dev_stdio, dev_fb, absent, dev_null, dev_zero, dev_urandom,
}
use cyanos.Vfs.Table.{
  at_fd_lem, open_fd_range, descriptor, IsValid, descriptor_found, descriptor-put_fd,
}
use cyanos.Vfs.Descriptor.{handle_close, handle_dup2, pipe_of, release, close_end}

release-tables : (k : VnodeKind) (v : Vfs) → (release k v).tables ≡ v.tables
release-tables (event_fd slot) v = refl
release-tables (timer_fd slot) v = refl
release-tables absent v = refl
release-tables (ram_file d pos) v = refl
release-tables dev_null v = refl
release-tables dev_zero v = refl
release-tables (pipe ring is_write) v = refl
release-tables (tmp_file idx pos writable) v = refl
release-tables dev_urandom v = refl
release-tables (dev_stdio fd) v = refl
release-tables (dev_fb pos) v = refl

-- A close of an open descriptor that is not a pipe's end succeeds and removes it; every other
-- descriptor of every process is as before.
pub descriptor-handle_close :
    (pid fd pid' fd' i : ℕ) (t : ProcFdTable) (e : FdEntry) (v : Vfs)
    → IsValid v.tables
    → at_fd pid fd v.tables ≡ some (i, t, e)
    → pipe_of e.kind ≡ none
    → ((handle_close pid fd v).0 ≡ value 0)
      × (descriptor pid' fd' (handle_close pid fd v).1.tables
          ≡ (if (pid' == pid) && (fd' == fd) then none else descriptor pid' fd' v.tables))
unfolding handle_close
descriptor-handle_close pid fd pid' fd' i t e v valid at plain =
    let (found, open_) = at_fd_lem pid fd i t e v.tables at in
    let v' : Vfs = put_entry i t fd empty_fd v in
    let result : handle_close pid fd v ≡ (value 0, release e.kind v') =
      rw (at, plain, handle_close) refl in
    let law =
      descriptor-put_fd pid fd pid' fd' i t empty_fd v.tables valid found
        (open_fd_range fd t e open_) in
    (
      ap (λ r. r.0) result,
      ap (λ r. descriptor pid' fd' r.1.tables) result
          ∙ ap (descriptor pid' fd') (release-tables e.kind v')
          ∙ law,
    )

-- A close of a pipe's end closes that end of the ring and leaves the descriptor as it was, so that
-- the process still sees it open.
descriptor-handle_close_pipe :
    (pid fd i ring : ℕ) (is_write : Bool) (t : ProcFdTable) (e : FdEntry) (v : Vfs)
    → at_fd pid fd v.tables ≡ some (i, t, e)
    → pipe_of e.kind ≡ some (ring, is_write)
    → (handle_close pid fd v ≡ (value 0, close_end ring is_write v))
      × (descriptor pid fd (handle_close pid fd v).1.tables ≡ some e)
unfolding handle_close
descriptor-handle_close_pipe pid fd i ring is_write t e v at end =
    let (found, open_) = at_fd_lem pid fd i t e v.tables at in
    let result : handle_close pid fd v ≡ (value 0, close_end ring is_write v) =
      rw (at, end, handle_close) refl in
    (
      result,
      ap (λ r. descriptor pid fd r.1.tables) result
          ∙ descriptor_found pid fd i t v.tables found
          ∙ open_,
    )

-- After a dup2 that succeeds, the new descriptor shows the entry of the old one, and every other
-- descriptor of every process is as before.
pub descriptor-handle_dup2 :
    (pid oldfd newfd pid' fd' i : ℕ) (t : ProcFdTable) (e : FdEntry) (v : Vfs)
    → IsValid v.tables
    → at_fd pid oldfd v.tables ≡ some (i, t, e)
    → newfd < max_fds
    → ((handle_dup2 pid oldfd newfd v).0 ≡ value newfd)
      × (descriptor pid' fd' (handle_dup2 pid oldfd newfd v).1.tables
          ≡ (if (pid' == pid) && (fd' == newfd) then some e else descriptor pid' fd' v.tables))
unfolding handle_dup2
descriptor-handle_dup2 pid oldfd newfd pid' fd' i t e v valid at h =
    let (found, open_) = at_fd_lem pid oldfd i t e v.tables at in
    let result : handle_dup2 pid oldfd newfd v ≡ (value newfd, put_entry i t newfd e v) =
      ground (arith, found, open_) in
    let law = descriptor-put_fd pid newfd pid' fd' i t e v.tables valid found h in
    (
      ap (λ r. r.0) result,
      ap (λ r. descriptor pid' fd' r.1.tables) result ∙ law ∙ ground (arith, open_),
    )
