-- ===== src/Net/Stream.antt =====
-- `UnixRing` of servers/net/src/lib.rs: the bytes of one direction of a connection.
use cyanos.Base.{
  ℕ, zero, suc, ◌+◌, ◌-◌, ◌%◌, ◌≤◌, min, ◌≡◌, refl, sym, ap, ap₂, subst, ◌∙◌, List, [], ◌∷◌, ◌++◌,
  arith, length, get_or, set, drop, length-append, take, length-drop,
}
use mathlib.Core.List.{append-nil, append_assoc}
use cyanos.Server.Ring.{ByteRing}
use cyanos.Server.Ring.Refine.{Holds, Stores, Stores-put, Stores-get}
use cyanos.Net.{ring_size}

-- The loop of `write`, which leaves the count for later.
unfoldable fill : List ℕ → ByteRing → ByteRing
fill [] r = r
fill (b ∷ bs) r =
    fill bs (record r { buf = set r.buf r.write_pos b; write_pos = (r.write_pos + 1) % ring_size })

-- How many of `len` bytes `write` takes.
abbrev pub room : ℕ → ByteRing → ℕ
room len r = min len (ring_size - r.count)

-- `write`, of the bytes that there is room for.
unfoldable pub write : List ℕ → ByteRing → ByteRing
unfolding fill
write bs r = record (fill bs r) { count = r.count + length bs }

-- The loop of `read`.
unfoldable drain : ℕ → ByteRing → List ℕ × ByteRing
drain zero r = ([], r)
drain (suc k) r =
    let (bs, r') = drain k (record r { read_pos = (r.read_pos + 1) % ring_size }) in
    (get_or r.buf r.read_pos 0 ∷ bs, r')

unfoldable pub read : ℕ → ByteRing → List ℕ × ByteRing
unfolding drain
read len r =
    let n = min len r.count in let (bs, r') = drain n r in (bs, record r' { count = r.count - n })

fill-Stores :
    (bs : List ℕ) (r : ByteRing) (q : List ℕ)
    → Stores ring_size r.buf r.read_pos r.write_pos q
    → length q + length bs ≤ ring_size
    → Stores ring_size (fill bs r).buf (fill bs r).read_pos (fill bs r).write_pos (q ++ bs)
unfolding fill
fill-Stores [] r q s h =
    subst (Stores ring_size r.buf r.read_pos r.write_pos) (sym (append-nil q)) s
fill-Stores (b ∷ bs) r q s h =
    let r' : ByteRing = record r {
      buf = set r.buf r.write_pos b;
      write_pos = (r.write_pos + 1) % ring_size;
    } in
    let longer = length-append q (b ∷ []) in
    subst (Stores ring_size (fill bs r').buf (fill bs r').read_pos (fill bs r').write_pos)
      (append_assoc q (b ∷ []) bs)
      (fill-Stores bs r' (q ++ (b ∷ [])) (Stores-put b s (omega (arith, h)))
        (omega (arith, h, longer)))

-- `write` appends bytes that fit.
pub write-Holds :
    {r : ByteRing} {q : List ℕ} (bs : List ℕ)
    → Holds ring_size r q
    → length q + length bs ≤ ring_size
    → Holds ring_size (write bs r) (q ++ bs)
unfolding write
write-Holds {r} {q} bs h fits = record {
  stored = fill-Stores bs r q h.stored fits;
  counted = omega (arith, h.counted, length-append q bs);
}

drain_lem :
    (k : ℕ) (r : ByteRing) (q : List ℕ)
    → Stores ring_size r.buf r.read_pos r.write_pos q
    → k ≤ length q
    → ((drain k r).0 ≡ take k q)
      × Stores ring_size (drain k r).1.buf (drain k r).1.read_pos (drain k r).1.write_pos (drop k q)
unfolding drain
drain_lem zero r q s h = (refl, s)
drain_lem (suc k) r [] s h = absurd (omega arith)
drain_lem (suc k) r (b ∷ q) s h =
    let (head, rest) = Stores-get s in
    let r' : ByteRing = record r { read_pos = (r.read_pos + 1) % ring_size } in
    let (bs, left) = drain_lem k r' q rest (omega arith) in (ap₂ ◌∷◌ head bs, left)

-- `read` takes the oldest bytes, as many as are asked for and there are.
pub read-Holds :
    {r : ByteRing} {q : List ℕ} (len : ℕ)
    → Holds ring_size r q
    → ((read len r).0 ≡ take (min len (length q)) q)
      × Holds ring_size (read len r).1 (drop (min len (length q)) q)
unfolding read
read-Holds {r} {q} len h =
    let n : ℕ = min len r.count in
    let same : n ≡ min len (length q) = ap (min len) h.counted in
    let (bs, left) = drain_lem n r q h.stored (omega (arith, h.counted)) in
    (
      bs ∙ ap (λ k. take k q) same,
      subst (λ k. Holds ring_size (read len r).1 (drop k q)) same
          (record { stored = left; counted = omega (arith, h.counted, length-drop n q) }),
    )
