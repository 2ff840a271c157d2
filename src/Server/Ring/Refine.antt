-- ===== src/Server/Ring/Refine.antt =====
-- A byte ring implements a bounded queue of bytes.
use cyanos.Base.{
  ℕ, suc, ◌+◌, ◌%◌, ◌≤◌, ◌<◌, ◌≡◌, ap, ◌∙◌, Bool, true, false, Option, none, some, List, [], ◌∷◌,
  ◌++◌, arith, ltb, if◌then◌else◌, length, get_or, set, length-append, length-set, ◌-◌, min, refl,
  dec_lt, leb, ◌==◌, ==_true, ltb-false, lt→ltb, take, zero, sym, subst, drop, length-replicate,
}
use native.Mathlib.Nat.{mod-eq_of_lt, mod-add-mod, mod-lt}
use mathlib.Core.List.{append-nil, append_assoc}
use cyanos.Base.Circle.{window, window-set_end, shift_start}
use cyanos.Server.Ring
use cyanos.Server.Ring.{ByteRing, put, get, put_all, get_some}

-- The specification: a queue of at most `n` bytes, oldest first.
unfoldable queue_put : ℕ → List ℕ → ℕ → Bool × List ℕ
queue_put n q b = if ltb (length q) n then (true, q ++ (b ∷ [])) else (false, q)

unfoldable queue_get : List ℕ → Option ℕ × List ℕ
queue_get [] = (none, [])
queue_get (b ∷ q) = (some b, q)

-- The `length q` bytes from `rpos` on, up to `wpos`, are those of `q`.
pub record Stores (n : ℕ) (buf : List ℕ) (rpos wpos : ℕ) (q : List ℕ) : Type 0 where
  pub size : length buf ≡ n
  pub rpos_in : rpos < n
  pub room : length q ≤ n
  pub wpos_at : wpos ≡ (rpos + length q) % n
  pub bytes : window 0 buf n rpos (length q) ≡ q

pub record Holds (n : ℕ) (r : ByteRing) (q : List ℕ) : Type 0 where
  pub stored : Stores n r.buf r.read_pos r.write_pos q
  pub counted : r.count ≡ length q

pub Stores-put :
    {n : ℕ} {buf : List ℕ} {rpos wpos : ℕ} {q : List ℕ} (b : ℕ)
    → Stores n buf rpos wpos q
    → length q < n
    → Stores n (set buf wpos b) rpos ((wpos + 1) % n) (q ++ (b ∷ []))
Stores-put {n} {buf} {rpos} {wpos} {q} b v h = record {
  size = length-set buf wpos b ∙ v.size;
  rpos_in = v.rpos_in;
  room = rw longer h;
  wpos_at =
      ap (λ t. (t + 1) % n) v.wpos_at
      ∙ mod-add-mod (rpos + length q) n 1
      ∙ ap (λ t. t % n) (omega (arith, longer));
  bytes = rw longer (
      window-set_end 0 buf n b (length q) rpos wpos v.size v.rpos_in h v.wpos_at
      ∙ ap (λ s. s ++ (b ∷ [])) v.bytes);
}
  where
    longer : length (q ++ (b ∷ [])) ≡ suc (length q)
    longer = omega (arith, length-append q (b ∷ []))

pub Stores-get :
    {n : ℕ} {buf : List ℕ} {rpos wpos : ℕ} {b : ℕ} {q : List ℕ}
    → Stores n buf rpos wpos (b ∷ q)
    → (get_or buf rpos 0 ≡ b) × Stores n buf ((rpos + 1) % n) wpos q
Stores-get {n} {buf} {rpos} {wpos} {b} {q} v = (
  cc v.bytes,
  record {
    size = v.size;
    rpos_in = mod-lt (rpos + 1) (omega (arith, v.rpos_in));
    room = omega (arith, v.room);
    wpos_at = v.wpos_at ∙ shift_start n rpos (length q);
    bytes = cc v.bytes;
  },
)

-- A byte goes in exactly if the queue has room, and at its end.
put_refines :
    {n : ℕ} {r : ByteRing} {q : List ℕ} (b : ℕ)
    → Holds n r q
    → ((put n r b).0 ≡ (queue_put n q b).0) × Holds n (put n r b).1 (queue_put n q b).1
unfolding put queue_put
put_refines {n} {r} {q} b v = elim (dec_lt (length q) n) [
  | yes fits ↦
      let open_ : leb n r.count ≡ false = ground (arith, v.counted) in
      rw (open_, lt→ltb _ _ fits)
        (
          refl,
          record {
            stored = Stores-put b v.stored fits;
            counted = omega (arith, v.counted, length-append q (b ∷ []));
          },
        )
  | no full ↦
      let shut : leb n r.count ≡ true = ground (arith, v.counted) in
      rw (shut, ltb-false (length q) n (omega arith)) (refl, v)
]

-- The byte that comes out is the oldest one.
get_refines :
    {n : ℕ} {r : ByteRing} {q : List ℕ}
    → Holds n r q
    → ((get n r).0 ≡ (queue_get q).0) × Holds n (get n r).1 (queue_get q).1
unfolding get queue_get
get_refines {n} {r} {q = []} v =
    let empty : (r.count == 0) ≡ true = ==_true _ _ v.counted in rw empty (refl, v)
get_refines {n} {r} {q = b ∷ q} v =
    let some_ : (r.count == 0) ≡ false = ground (arith, v.counted) in
    let (head, rest) = Stores-get v.stored in
    rw some_ (ap some head, record { stored = rest; counted = omega (arith, v.counted) })

put_all_room :
    {n : ℕ} {r : ByteRing} {q : List ℕ} (bs : List ℕ) (k : ℕ)
    → length q + k ≡ n
    → Holds n r q
    → ((put_all n r bs).0 ≡ min (length bs) k) × Holds n (put_all n r bs).1 (q ++ take k bs)
unfolding put_all queue_put
put_all_room {n} {r} {q} [] zero e v = (refl, subst (Holds n r) (sym (append-nil q)) v)
put_all_room {n} {r} {q} [] (suc k) e v = (omega arith, subst (Holds n r) (sym (append-nil q)) v)
put_all_room {n} {r} {q} (b ∷ bs) zero e v =
    let (done, kept) = put_refines b v in
    let full : ltb (length q) n ≡ false = ltb-false (length q) n (omega arith) in
    let shut : (put n r b).0 ≡ false = done ∙ rw full refl in
    rw shut (omega arith, subst (Holds n (put n r b).1) (sym (append-nil q)) (rw full at kept))
put_all_room {n} {r} {q} (b ∷ bs) (suc k) e v =
    let (done, kept) = put_refines b v in
    let fits : ltb (length q) n ≡ true = lt→ltb (length q) n (omega arith) in
    let (count, rest) =
      put_all_room {r = (put n r b).1} {q = q ++ (b ∷ [])} bs k
        (omega (arith, length-append q (b ∷ []))) (rw fits at kept) in
    let went : (put n r b).0 ≡ true = done ∙ rw fits refl in
    rw went (
      omega (arith, count),
      subst (Holds n (put_all n (put n r b).1 bs).1) (append_assoc q (b ∷ []) (take k bs)) rest,
    )

-- As many bytes go in as there is room for, in order, and the result is their number.
pub put_all_refines :
    {n : ℕ} {r : ByteRing} {q : List ℕ} (bs : List ℕ)
    → Holds n r q
    → ((put_all n r bs).0 ≡ min (length bs) (n - length q))
      × Holds n (put_all n r bs).1 (q ++ take (n - length q) bs)
put_all_refines {n} {r} {q} bs v = put_all_room bs (n - length q) (omega (arith, v.stored.room)) v

-- The oldest bytes come out, in order, as many as are asked for and there are.
pub get_some_refines :
    {n : ℕ} {r : ByteRing} {q : List ℕ} (k : ℕ)
    → Holds n r q
    → ((get_some n k r).0 ≡ take k q) × Holds n (get_some n k r).1 (drop k q)
unfolding get_some queue_get
get_some_refines zero v = (refl, v)
get_some_refines {n} {r} {q = []} (suc k) v =
    let (none_, kept) = get_refines v in rw (none_, get_some) (refl, kept)
get_some_refines {n} {r} {q = b ∷ q} (suc k) v =
    let (head, kept) = get_refines v in
    let (rest, left) = get_some_refines {r = (get n r).1} {q = q} k kept in
    rw (head, get_some) (ap (λ s. b ∷ s) rest, left)

pub new-Holds : (n : ℕ) → 0 < n → Holds n (Ring.new n) []
unfolding Ring.new
new-Holds n h = record {
  stored = record {
    size = length-replicate n 0;
    rpos_in = h;
    room = omega arith;
    wpos_at = sym (mod-eq_of_lt h);
    bytes = refl;
  };
  counted = refl;
}
