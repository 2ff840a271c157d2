-- ===== src/Tty/Line/Session.antt =====
-- What a pair of terminals of servers/tty/src/lib.rs promises, and what a close of its master leaves.
use cyanos.Base.{
  ℕ, ◌-◌, ◌≤◌, ◌<◌, min, ◌≡◌, refl, sym, ap, ap₂, subst, ◌∙◌, inl, Bool, true, false, not, some,
  List, [], arith, length, get_elem?, get_or-set_self, position, take, take_all, inr, Option-cases,
  length-set, locate-set_first, take_more,
}
use cyanos.Server.Memory.{load, store, length-load, load-store}
use cyanos.Server.Ring
use cyanos.Server.Ring.{ByteRing}
use cyanos.Server.Ring.Refine.{Holds, put_all_refines, get_some_refines}
use cyanos.Server.Wire.{value}
use cyanos.Tty.{
  Tty, TtyEntry, ProcTtyTable, PtsPair, pts_master, tty_at, fd_to_slot, pair_at, put_pair, tty_buf,
  new_pair,
}
use cyanos.Tty.Line.{
  handle_read, handle_write, handle_close, read_pts, write_pts, kind_for, pair_unused, pts_of,
  master_of, in_ring, out_ring, put_in, put_out,
}

-- A descriptor of a process names one end of a pair.
abbrev pub IsEnd : ℕ → ℕ → ℕ → Bool → Tty → Type 0
IsEnd pid fd pair is_master v =
    (slot i : ℕ) × (t : ProcTtyTable) × (e : TtyEntry) × (tty_at pid fd v.tables
      ≡ some (slot, i, t, e))
    × (pts_of e.kind ≡ some (pair, is_master))

in-put_out :
    (is_master : Bool) (r : ByteRing) (p : PtsPair)
    → in_ring (not is_master) (put_out is_master r p) ≡ r
in-put_out true r p = refl
in-put_out false r p = refl

-- Bytes that one end of a pair writes while the other end has none to read, at most as many as a
-- buffer holds, are what the other end reads: both calls reply with the number of bytes, and the
-- buffer of the reader holds the bytes of the writer, whichever end writes.
pub handle_read-handle_write_pts :
    (pid fd pid' fd' pair : ℕ) (is_master : Bool) (buf to count : ℕ) (v : Tty)
    → IsEnd pid fd pair is_master v
    → IsEnd pid' fd' pair (not is_master) v
    → pair < length v.pairs
    → Holds tty_buf (out_ring is_master (pair_at pair v)) []
    → count ≤ tty_buf
    → (v1 v2 : Tty) × (handle_write pid fd buf count v ≡ (value count, v1))
      × (handle_read pid' fd' to count v1 ≡ (value count, v2))
      × (load count to v2.memory ≡ load count buf v.memory)
unfolding handle_write write_pts handle_read read_pts
handle_read-handle_write_pts pid fd pid' fd' pair is_master buf to count v (slot, i, t, e, at, kind)
      (slot', i', t', e', at', kind') h held fits =
    let p : PtsPair = pair_at pair v in
    let bs : List ℕ = load count buf v.memory in
    let long : length bs ≡ count = length-load count buf v.memory in
    let done = Ring.put_all tty_buf (out_ring is_master p) bs in
    let (counted, kept) = put_all_refines bs held in
    let all : min (length bs) (tty_buf - 0) ≡ count = omega (arith, long, fits) in
    let room : take (tty_buf - 0) bs ≡ bs =
      take_more (tty_buf - 0) bs (omega (arith, long, fits)) in
    let p1 : PtsPair = put_out is_master done.1 p in
    let v1 : Tty = put_pair pair p1 v in
    let here : pair_at pair v1 ≡ p1 = get_or-set_self v.pairs pair p1 new_pair h in
    let out : Holds tty_buf (in_ring (not is_master) (pair_at pair v1)) bs =
      subst (λ q. Holds tty_buf (in_ring (not is_master) q) bs) (sym here)
        (subst (λ r. Holds tty_buf r bs) (sym (in-put_out is_master done.1 p))
          (subst (Holds tty_buf done.1) room kept)) in
    let n : ℕ = min count tty_buf in
    let got = Ring.get_some tty_buf n (in_ring (not is_master) (pair_at pair v1)) in
    let (taken, left) = get_some_refines n out in
    let whole : take n bs ≡ bs = ap (λ k. take k bs) (omega (arith, long, fits)) ∙ take_all bs in
    let v2 : Tty =
      put_pair pair (put_in (not is_master) got.1 (pair_at pair v1))
        (record v1 { memory = store to got.0 v1.memory }) in
    (
      v1,
      v2,
      rw (at, kind, handle_write) (ap₂ (λ a b. (value a, b)) (counted ∙ all) refl),
      rw (at', kind', handle_read)
          (ap₂ (λ a b. (value a, b)) (ap length (taken ∙ whole) ∙ long) refl),
      ap (λ s. load count to (store to s v.memory)) (taken ∙ whole)
          ∙ subst (λ k. load k to (store to bs v.memory) ≡ bs) long (load-store to bs v.memory),
    )

-- Every pair before this one is in use.
abbrev pub LowerInUse : ℕ → Tty → Type 0
LowerInUse pair v =
    (j : ℕ) (p : PtsPair) → j < pair → get_elem? v.pairs j ≡ some p → p.in_use ≡ true

-- After a close of a master, with every lower pair in use, the next master that is opened gets the same
-- pair with the bytes it holds, and the closed descriptor still names that pair.
handle_close_keeps :
    (pid fd pair slot i : ℕ) (t : ProcTtyTable) (e : TtyEntry) (v : Tty)
    → tty_at pid fd v.tables ≡ some (slot, i, t, e)
    → e.kind ≡ pts_master pair
    → pair < length v.pairs
    → LowerInUse pair v
    → (w : Tty) × (kind_for 1 (handle_close pid fd v).1 ≡ inl (pts_master pair, w))
      × (pair_at pair w ≡ record (pair_at pair v) { in_use = true })
      × (tty_at pid fd w.tables ≡ some (slot, i, t, e))
unfolding handle_close kind_for position
handle_close_keeps pid fd pair slot i t e v at kind h lower = elim (Option-cases (fd_to_slot fd)) [
  | inl out ↦ absurd (ground arith)
  | inr (slot', in_) ↦
      let shut : PtsPair = record (pair_at pair v) { in_use = false } in
      let v1 : Tty = put_pair pair shut v in
      let master : master_of e.kind ≡ some pair = ap master_of kind in
      let result : handle_close pid fd v ≡ (value 0, v1) =
        rw (in_, at, master, handle_close) refl in
      let found =
        locate-set_first pair_unused v.pairs pair shut h (λ j p l row. ap not (lower j p l row))
          refl in
      let here : pair_at pair v1 ≡ shut = get_or-set_self v.pairs pair shut new_pair h in
      let again : PtsPair = record (pair_at pair v1) { in_use = true } in
      let w : Tty = put_pair pair again v1 in
      let there : pair_at pair w ≡ again =
        get_or-set_self v1.pairs pair again new_pair
          (omega (arith, h, length-set v.pairs pair shut)) in
      (
        w,
        ap (λ r. kind_for 1 r.1) result ∙ rw (found, kind_for, position) refl,
        there ∙ ap {A = PtsPair} {B = PtsPair} (λ p. record p { in_use = true }) here,
        at,
      )
]
