-- ===== src/Vfs/Pipe/Stream.antt =====
-- Through its two ends, a pipe is a bounded queue of bytes.
use cyanos.Base.{
  ℕ, ◌-◌, ◌<◌, min, ◌≡◌, refl, sym, ap, subst, Bool, true, some, List, ◌++◌, arith, length, drop,
  length-set, get_or-set_self, take, ◌∷◌, suc, false, Option, none, ◌==◌,
}
use cyanos.Server.Memory.{load, store}
use cyanos.Server.Ring
use cyanos.Server.Ring.{ByteRing}
use cyanos.Server.Ring.Refine.{Holds, put_all_refines, get_some_refines}
use cyanos.Server.Wire.{Reply, value}
use cyanos.Vfs.{Vfs, ProcFdTable, FdEntry, pipe, at_fd, pipe_ring_size, new_pipe}
use cyanos.Vfs.Transfer.{pipe_at, put_ring, put_bytes, handle_read, read_pipe, read_vnode}
use cyanos.Vfs.Transfer.Write.{handle_write, write_pipe, write_vnode}

-- The pipe with this index holds the bytes of `q`, oldest first.
pub record Carries (ring : ℕ) (v : Vfs) (q : List ℕ) : Type 0 where
  pub in_range : ring < length v.pipe_rings
  pub held : Holds pipe_ring_size (pipe_at ring v).ring q

-- A descriptor of a process names one end of a pipe.
abbrev pub IsEnd : ℕ → ℕ → ℕ → Bool → Vfs → Type 0
IsEnd pid fd ring is_write v =
    (i : ℕ) × (t : ProcFdTable) × (e : FdEntry) × (at_fd pid fd v.tables ≡ some (i, t, e))
    × (e.kind ≡ pipe ring is_write)

-- What a write to a pipe with the bytes `q` leaves: the reply counts the bytes that went in.
pub record WriteDone (ring : ℕ) (q bs : List ℕ) (v : Vfs) (r : Reply × Vfs) : Type 0 where
  pub reply : r.0 ≡ value (min (length bs) (pipe_ring_size - length q))
  pub carries : Carries ring r.1 (q ++ take (pipe_ring_size - length q) bs)
  pub tables : r.1.tables ≡ v.tables
  pub memory : r.1.memory ≡ v.memory
  pub ends : (pipe_at ring r.1).write_open ≡ (pipe_at ring v).write_open

-- What a read of at most `n` bytes leaves.
pub record ReadDone (ring : ℕ) (q : List ℕ) (n buf : ℕ) (v : Vfs) (r : Reply × Vfs) : Type 0 where
  pub reply : r.0 ≡ value (length (take n q))
  pub carries : Carries ring r.1 (drop n q)
  pub tables : r.1.tables ≡ v.tables
  pub memory : r.1.memory ≡ store buf (take n q) v.memory

-- The pipe with other bytes in its ring.
pipe_at-put_ring :
    (ring : ℕ) (bytes : ByteRing) (v : Vfs)
    → ring < length v.pipe_rings
    → pipe_at ring (put_ring ring bytes v) ≡ record (pipe_at ring v) { ring = bytes }
pipe_at-put_ring ring bytes v h =
    get_or-set_self v.pipe_rings ring (record (pipe_at ring v) { ring = bytes }) new_pipe h

put_ring-Carries :
    (ring : ℕ) (bytes : ByteRing) (v : Vfs) (q : List ℕ)
    → ring < length v.pipe_rings
    → Holds pipe_ring_size bytes q
    → Carries ring (put_ring ring bytes v) q
put_ring-Carries ring bytes v q h held = record {
  in_range =
      omega (arith, h, length-set v.pipe_rings ring (record (pipe_at ring v) { ring = bytes }));
  held = subst (λ p. Holds pipe_ring_size p.ring q) (sym (pipe_at-put_ring ring bytes v h)) held;
}

write_pipe_lem :
    (ring buf count : ℕ) (v : Vfs) (q : List ℕ)
    → Carries ring v q
    → (pipe_at ring v).read_open ≡ true
    → WriteDone ring q (load count buf v.memory) v (write_pipe ring buf count v)
unfolding write_pipe
write_pipe_lem ring buf count v q c open_ =
    let bs : List ℕ = load count buf v.memory in
    let done = Ring.put_all pipe_ring_size (pipe_at ring v).ring bs in
    let (counted, held) = put_all_refines bs c.held in
    let result : write_pipe ring buf count v ≡ (value done.0, put_ring ring done.1 v) =
      ground arith in
    subst (WriteDone ring q bs v) (sym result) (record {
      reply = ap value counted;
      carries =
          put_ring-Carries ring done.1 v (q ++ take (pipe_ring_size - length q) bs) c.in_range held;
      tables = refl;
      memory = refl;
      ends = ap (λ p. p.write_open) (pipe_at-put_ring ring done.1 v c.in_range);
    })

put_bytes-Carries :
    (ring buf : ℕ) (bs : List ℕ) (v : Vfs) (q : List ℕ)
    → Carries ring v q
    → Carries ring (put_bytes buf bs v) q
put_bytes-Carries ring buf bs v q c = record { in_range = c.in_range; held = c.held }

read_pipe_lem :
    (ring buf count b : ℕ) (v : Vfs) (q : List ℕ)
    → Carries ring v (b ∷ q)
    → ReadDone ring (b ∷ q) (min count 4096) buf v (read_pipe ring buf count v)
unfolding read_pipe
read_pipe_lem ring buf count b v q c =
    let n : ℕ = min count 4096 in
    let done = Ring.get_some pipe_ring_size n (pipe_at ring v).ring in
    let (taken, held) = get_some_refines n c.held in
    let result : read_pipe ring buf count v
        ≡ (value (length done.0), put_bytes buf done.0 (put_ring ring done.1 v)) =
      ground (arith, c.held.counted) in
    subst (ReadDone ring (b ∷ q) n buf v) (sym result) (record {
      reply = ap (λ bs. value (length bs)) taken;
      carries =
          put_bytes-Carries ring buf done.0 (put_ring ring done.1 v) (drop n (b ∷ q))
            (put_ring-Carries ring done.1 v (drop n (b ∷ q)) c.in_range held);
      tables = refl;
      memory = ap (λ bs. store buf bs v.memory) taken;
    })

-- The result of a handler that returns satisfies a predicate.
abbrev pub Returns : (Reply × Vfs → Type 0) → Option (Reply × Vfs) → Type 0
Returns P none = ⊥
Returns P (some r) = P r

-- A write of at least one byte to the write end of a pipe whose read end is open returns; the bytes
-- that fit are appended to those that the pipe holds, in order, the reply is their number, and no
-- descriptor and no memory of a process changes.
pub handle_write_refines :
    (fuel pid fd ring buf count : ℕ) (v : Vfs) (q : List ℕ)
    → Carries ring v q
    → IsEnd pid fd ring true v
    → (pipe_at ring v).read_open ≡ true
    → 0 < count
    → Returns
        (WriteDone ring q (load count buf v.memory) v)
        (handle_write (suc fuel) pid fd buf count v)
unfolding handle_write write_vnode
handle_write_refines fuel pid fd ring buf count v q c (i, t, e, at, kind) open_ some_ =
    let nonzero : (count == 0) ≡ false = ground arith in
    let same : write_vnode i t fd e e.kind buf count v ≡ write_pipe ring buf count v =
      ap (λ k. write_vnode i t fd e k buf count v) kind in
    rw (nonzero, at, kind)
      (subst (WriteDone ring q (load count buf v.memory) v) (sym same)
        (write_pipe_lem ring buf count v q c open_))

-- A read of at least one byte from the read end of a pipe that holds bytes returns; it takes the
-- oldest ones, at most as many as it asks for and at most 4096, and stores them in order at the
-- buffer of the caller.
pub handle_read_refines :
    (fuel pid fd ring buf count b : ℕ) (v : Vfs) (q : List ℕ)
    → Carries ring v (b ∷ q)
    → IsEnd pid fd ring false v
    → 0 < count
    → Returns
        (ReadDone ring (b ∷ q) (min count 4096) buf v)
        (handle_read (suc fuel) pid fd buf count v)
unfolding handle_read read_vnode
handle_read_refines fuel pid fd ring buf count b v q c (i, t, e, at, kind) some_ =
    let nonzero : (count == 0) ≡ false = ground arith in
    let same : read_vnode i t fd e e.kind buf count v ≡ read_pipe ring buf count v =
      ap (λ k. read_vnode i t fd e k buf count v) kind in
    rw (nonzero, at, kind)
      (subst (ReadDone ring (b ∷ q) (min count 4096) buf v) (sym same)
        (read_pipe_lem ring buf count b v q c))
