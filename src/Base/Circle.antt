-- ===== src/Base/Circle.antt =====
-- A circular array of optional slots with a head and a tail index, as the ring buffer and the
-- message queue of a port use it: what it holds, and what one write or one read does to that.
use Prim.Native.Nat.{ℕ, zero, suc, ◌+◌, ◌-◌, ◌%◌, ◌<◌, ◌≤◌}
use mathlib.Core.Path.{◌≡◌, refl, sym, ap, ap₂, ◌∙◌}
use mathlib.Core.Logic.{◌≢◌, ◌↔◌}
use mathlib.Core.Bool.{Bool, true, false}
use mathlib.Core.Option.{Option, none, some}
use mathlib.Core.List.{List, [], ◌∷◌, ◌++◌, map, map-append}
use native.Mathlib.Decide.{dec_lt}
use native.Mathlib.Nat.{mod-add-mod, mod-eq_of_lt, mod-eq-sub-mod, add-mod_right}
use native.Mathlib.Omega.{arith}
use cyanos.Base.Tests.{lt→ltb, ltb-false, ltb, if◌then◌else◌}
use cyanos.Base.Lists.{
  length, get_or, set, length-set, length-append, get_or-set_self, get_or-set_ne,
}

-- The specification: a queue that keeps fewer than `n` entries, oldest first.
module _ {ℓ} {A : Type ℓ} where
  unfoldable pub fifo_push : ℕ → List A → A → Bool × List A
  fifo_push n q x = if ltb (suc (length q)) n then (true, q ++ (x ∷ [])) else (false, q)

  unfoldable pub fifo_pop : List A → Option A × List A
  fifo_pop [] = (none, [])
  fifo_pop (x ∷ q) = (some x, q)

  pub fifo_push-room :
      (n : ℕ) (q : List A) (x : A) → suc (length q) < n → fifo_push n q x ≡ (true, q ++ (x ∷ []))
  unfolding fifo_push
  fifo_push-room n q x h = rw (lt→ltb _ _ h)

  pub fifo_push-full :
      (n : ℕ) (q : List A) (x : A) → n ≤ suc (length q) → fifo_push n q x ≡ (false, q)
  unfolding fifo_push
  fifo_push-full n q x h = rw (ltb-false _ _ h)

-- The `k` slots from index `h` on, going round at `n`.
abbrev pub window {ℓ} : {A : Type ℓ} → A → List A → ℕ → ℕ → ℕ → List A
window d buf n h zero = []
window d buf n h (suc k) = get_or buf h d ∷ window d buf n ((h + 1) % n) k

-- The slots from `head` up to `tail` hold exactly the entries of `q`, in order.
pub record Holds {ℓ} {A : Type ℓ} (n : ℕ) (buf : List (Option A)) (head tail : ℕ) (q : List A)
    : Type ℓ where
  pub size : length buf ≡ n
  pub head_in : head < n
  pub room : length q < n
  pub tail_at : tail ≡ (head + length q) % n
  pub slots : window none buf n head (length q) ≡ map some q

-- Fewer than `n` steps round the circle do not come back to the start.
add-mod-ne : {n h k : ℕ} → h < n → suc k < n → (h + suc k) % n ≢ h
add-mod-ne {n} {h} {k} start_in short back = elim (dec_lt (h + suc k) n) [
  | no past ↦
      let once = mod-eq-sub-mod {n = h + suc k} {m = n} (omega arith) in
      let rest = mod-eq_of_lt {n = h + suc k - n} {m = n} (omega arith) in
      omega (arith, once, rest, back)
  | yes inside ↦ omega (arith, mod-eq_of_lt inside, back)
]

pub shift_start : (n h k : ℕ) → (h + suc k) % n ≡ ((h + 1) % n + k) % n
shift_start n h k = rw mod-add-mod (ap (λ t. t % n) (omega arith))

module _ {ℓ} {A : Type ℓ} (d : A) where
  -- A write just past a window extends it.
  pub window-set_end :
      (buf : List A) (n : ℕ) (x : A) (k h i : ℕ)
      → length buf ≡ n
      → h < n
      → k < n
      → i ≡ (h + k) % n
      → window d (set buf i x) n h (suc k) ≡ window d buf n h k ++ (x ∷ [])
  window-set_end buf n x zero h i hs hh hk e =
      let e' : i ≡ h = e ∙ ap (λ t. t % n) (omega arith) ∙ mod-eq_of_lt hh in
      rw (e', get_or-set_self buf h x d (omega arith))
  window-set_end buf n x (suc k) h i hs hh hk e =
      ap₂ ◌∷◌ (get_or-set_ne buf x d (λ c. add-mod-ne hh hk (sym e ∙ c))) (
        window-set_end buf n x k ((h + 1) % n) i hs (omega arith) (omega arith)
          (e ∙ shift_start n h k))

  -- A write just before a window that leaves a slot free does not touch it.
  window-set_before :
      (buf : List A) (n : ℕ) (x : A) (k m h i : ℕ)
      → h < n
      → k + suc m < n
      → i < n
      → h ≡ (i + suc m) % n
      → window d (set buf i x) n h k ≡ window d buf n h k
  window-set_before buf n x zero m h i hh hk hi e = refl
  window-set_before buf n x (suc k) m h i hh hk hi e =
      ap₂ ◌∷◌
        (get_or-set_ne buf x d (λ c. add-mod-ne {h = i} {k = m} hi (omega arith) (sym e ∙ sym c)))
        (window-set_before buf n x k (suc m) ((h + 1) % n) i (omega arith) (omega arith) hi
          (ap (λ t. (t + 1) % n) e ∙ mod-add-mod (i + suc m) n 1 ∙ ap (λ t. t % n) (omega arith)))

module _ {ℓ} {A : Type ℓ} {n : ℕ} {buf : List (Option A)} {head tail : ℕ} where
  -- The code's test for a full circle: one slot stays unused.
  pub Holds-is_full :
      {q : List A} → Holds n buf head tail q → ((tail + 1) % n ≡ head) ↔ (suc (length q) ≡ n)
  Holds-is_full {q} v = (to, from)
    where
      next : (tail + 1) % n ≡ (head + suc (length q)) % n
      next =
          ap (λ t. (t + 1) % n) v.tail_at
          ∙ mod-add-mod (head + length q) n 1
          ∙ ap (λ t. t % n) (omega arith)

      to : (tail + 1) % n ≡ head → suc (length q) ≡ n
      to e = elim (dec_lt (suc (length q)) n) [
        | yes p ↦ absurd (add-mod-ne v.head_in p (sym next ∙ e))
        | no p ↦ omega (arith, v.room)
      ]

      from : suc (length q) ≡ n → (tail + 1) % n ≡ head
      from e = next ∙ ap (λ t. (head + t) % n) e ∙ add-mod_right head n ∙ mod-eq_of_lt v.head_in

  -- The code's test for an empty circle.
  pub Holds-is_empty : {q : List A} → Holds n buf head tail q → (head ≡ tail) ↔ (q ≡ [])
  Holds-is_empty {q = []} v = (λ _. refl, λ _. sym (v.tail_at ∙ same))
    where
      same : (head + 0) % n ≡ head
      same = ap (λ t. t % n) (omega arith) ∙ mod-eq_of_lt v.head_in
  Holds-is_empty {q = x ∷ q} v =
      (λ e. absurd (add-mod-ne v.head_in v.room (sym v.tail_at ∙ sym e)), λ e. absurd (cc))

  -- A write at the tail appends.
  pub Holds-push :
      {q : List A} (x : A)
      → Holds n buf head tail q
      → suc (length q) < n
      → Holds n (set buf tail (some x)) head ((tail + 1) % n) (q ++ (x ∷ []))
  Holds-push {q} x v r = record {
    size = length-set buf tail (some x) ∙ v.size;
    head_in = v.head_in;
    room = rw longer r;
    tail_at =
        ap (λ t. (t + 1) % n) v.tail_at
        ∙ mod-add-mod (head + length q) n 1
        ∙ ap (λ t. t % n) (omega (arith, longer));
    slots = rw longer (
        window-set_end none buf n (some x) (length q) head tail v.size v.head_in v.room v.tail_at
        ∙ rw v.slots (sym (map-append some q (x ∷ []))));
  }
    where
      longer : length (q ++ (x ∷ [])) ≡ suc (length q)
      longer = omega (arith, length-append q (x ∷ []))

  -- A read at the head takes the oldest entry, and the slot is cleared.
  pub Holds-pop :
      {q : List A} {x : A}
      → Holds n buf head tail (x ∷ q)
      → (get_or buf head none ≡ some x) × Holds n (set buf head none) ((head + 1) % n) tail q
  Holds-pop {q} {x} v = (
    some-injective_head,
    record {
      size = length-set buf head none ∙ v.size;
      head_in = omega (arith, v.head_in);
      room = omega (arith, v.room);
      tail_at = v.tail_at ∙ shift_start n head (length q);
      slots =
          window-set_before none buf n none (length q) 0 ((head + 1) % n) head
            (omega (arith, v.head_in)) (omega (arith, v.room)) v.head_in refl
          ∙ tail_eq;
    },
  )
    where
      some-injective_head : get_or buf head none ≡ some x
      some-injective_head = cc v.slots

      tail_eq : window none buf n ((head + 1) % n) (length q) ≡ map some q
      tail_eq = cc v.slots
