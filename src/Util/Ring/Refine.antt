-- ===== src/Util/Ring/Refine.antt =====
-- The ring refines a queue of at most `N - 1` entries.
use cyanos.Base.{
  ◌+◌, ◌%◌, ℕ, ◌<◌, ◌≡◌, refl, none, List, [], ◌∷◌, arith, length-replicate, ==_true, ℕ_discrete,
  ◌≢◌, ==_false, ltb-false, sym, suc, length, lt→ltb,
}
use native.Mathlib.Nat.{le_of_eq}
use cyanos.Base.Circle.{
  Holds, Holds-is_full, Holds-is_empty, Holds-push, Holds-pop, fifo_push, fifo_pop,
}
use cyanos.Util.Ring.{RingBuffer, new, push, pop}

module _ {ℓ} {T : Type ℓ} (n : ℕ) where
  abbrev Contains : RingBuffer T → List T → Type ℓ
  Contains r q = Holds n r.buf r.head r.tail q

  -- A new ring holds nothing.
  new-Contains : 0 < n → Contains (new n) []
  unfolding new
  new-Contains h = record {
    size = length-replicate n none;
    head_in = h;
    room = h;
    tail_at = omega arith;
    slots = refl;
  }

  -- `push` on a ring of `n` slots refines the push on a queue of fewer than `n` entries: it is refused
  -- when `n - 1` wait, and else the entry comes last.
  push_refines :
      (val : T) {r : RingBuffer T} {q : List T}
      → Contains r q
      → ((push n val r).0 ≡ (fifo_push n q val).0) × Contains (push n val r).1 (fifo_push n q val).1
  unfolding push fifo_push
  push_refines val {r} {q} v = elim (ℕ_discrete ((r.tail + 1) % n) r.head) [
    | yes e ↦ rw (==_true _ _ e, ltb-false _ _ (le_of_eq (sym ((Holds-is_full v).0 e)))) (refl, v)
    | no e ↦
        let ne : suc (length q) ≢ n = λ c. e ((Holds-is_full v).1 c) in
        let free : suc (length q) < n = omega (arith, v.room) in
        rw (==_false _ _ e, lt→ltb _ _ free) (refl, Holds-push val v free)
  ]

  not_nil : {x : T} {q : List T} → x ∷ q ≢ []
  not_nil e = cc

  -- `pop` refines the pop of that queue.
  pop_refines :
      {r : RingBuffer T} {q : List T}
      → Contains r q
      → ((pop n r).0 ≡ (fifo_pop q).0) × Contains (pop n r).1 (fifo_pop q).1
  unfolding pop fifo_pop
  pop_refines {q = []} v = rw (==_true _ _ ((Holds-is_empty v).1 refl)) (refl, v)
  pop_refines {q = x ∷ q} v =
      rw (==_false _ _ (λ e. not_nil ((Holds-is_empty v).0 e))) (Holds-pop v)
