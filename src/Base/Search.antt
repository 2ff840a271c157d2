-- ===== src/Base/Search.antt =====
-- The searches that the source writes with `position` and `find` over an array, and what a write
-- does to them.
use Prim.Native.Nat.{ℕ, zero, suc, ◌<◌}
use mathlib.Core.Path.{◌≡◌, refl, sym, ap, subst}
use mathlib.Core.Logic.{inl, inr}
use mathlib.Core.Bool.{Bool, true, false}
use mathlib.Core.List.{List, [], ◌∷◌}
use mathlib.Core.Option.{Option, none, some, some-injective}
use native.Mathlib.Omega.{arith}
use cyanos.Base.Tests.{if◌then◌else◌, Option-cases, Bool-cases}
use cyanos.Base.Lists.{length, get_elem?, set}

module _ {ℓ} {A : Type ℓ} where
  -- The index behind a cell.
  abbrev pub shift : Option (ℕ × A) → Option (ℕ × A)
  shift none = none
  shift (some (i, x)) = some (suc i, x)

  -- The first element that passes the test, with its index.
  unfoldable pub locate : (A → Bool) → List A → Option (ℕ × A)
  locate p [] = none
  locate p (x ∷ xs) = if p x then some (0, x) else shift (locate p xs)

  unfoldable pub position : (A → Bool) → List A → Option ℕ
  position p xs = elim (locate p xs) [ none ↦ none | some (i, x) ↦ some i ]

  abbrev pub Located : (A → Bool) → List A → Option (ℕ × A) → Type ℓ
  Located p xs none = (i : ℕ) (x : A) → get_elem? xs i ≡ some x → p x ≡ false
  Located p xs (some (i, x)) =
      (get_elem? xs i ≡ some x)
      × (p x ≡ true)
      × ((j : ℕ) (y : A) → j < i → get_elem? xs j ≡ some y → p y ≡ false)

  pub locate-Located : (p : A → Bool) (xs : List A) → Located p xs (locate p xs)
  unfolding locate
  locate-Located p [] = λ i x e. absurd (cc)
  locate-Located p (x ∷ xs) = first (p x) refl (locate-Located p xs)
    where
      later : (o : Option (ℕ × A)) → p x ≡ false → Located p xs o → Located p (x ∷ xs) (shift o)
      later none f h = none_later
        where
          none_later : (i : ℕ) (y : A) → get_elem? (x ∷ xs) i ≡ some y → p y ≡ false
          none_later zero y e = subst (λ z. p z ≡ false) (some-injective _ _ e) f
          none_later (suc i) y e = h i y e
      later (some (i, z)) f h = (h.0, h.1, before)
        where
          before : (j : ℕ) (y : A) → j < suc i → get_elem? (x ∷ xs) j ≡ some y → p y ≡ false
          before zero y l e = subst (λ z. p z ≡ false) (some-injective _ _ e) f
          before (suc j) y l e = h.2 j y (omega arith) e

      first :
          (b : Bool)
          → p x ≡ b
          → Located p xs (locate p xs)
          → Located p (x ∷ xs) (if b then some (0, x) else shift (locate p xs))
      first true e h = (refl, e, λ j y l. absurd (omega arith))
      first false e h = later (locate p xs) e h

  -- A write that keeps the test at the element found is found in its place.
  pub locate-set_self :
      (p : A → Bool) (xs : List A) (i : ℕ) (x y : A)
      → locate p xs ≡ some (i, x)
      → p y ≡ true
      → locate p (set xs i y) ≡ some (i, y)
  unfolding locate
  locate-set_self p [] i x y e t = absurd (cc)
  locate-set_self p (z ∷ zs) zero x y e t = rw t refl
  locate-set_self p (z ∷ zs) (suc i) x y e t = elim (Bool-cases (p z)) [
    | inl here ↦ absurd (ground arith)
    | inr there ↦ elim (Option-cases (locate p zs)) [
      | inl gone ↦ absurd (ground arith)
      | inr ((j, w), found) ↦ ground (arith, locate-set_self p zs i x y)
    ]
  ]

  -- A write that fails the test before and after is not seen by the search.
  pub locate-set_other :
      (p : A → Bool) (xs : List A) (i : ℕ) (x y : A)
      → get_elem? xs i ≡ some x
      → p x ≡ false
      → p y ≡ false
      → locate p (set xs i y) ≡ locate p xs
  unfolding locate
  locate-set_other p [] i x y e f g = refl
  locate-set_other p (z ∷ zs) zero x y e f g =
      let same : p z ≡ false = subst (λ w. p w ≡ false) (sym (some-injective _ _ e)) f in
      ground (arith, same, g)
  locate-set_other p (z ∷ zs) (suc i) x y e f g =
      ap (λ r. if p z then some (0, z) else shift r) (locate-set_other p zs i x y e f g)

  -- A write of an element that passes, where none did, is found.
  pub locate-set_new :
      (p : A → Bool) (xs : List A) (i : ℕ) (x y : A)
      → locate p xs ≡ none
      → get_elem? xs i ≡ some x
      → p y ≡ true
      → locate p (set xs i y) ≡ some (i, y)
  unfolding locate
  locate-set_new p [] i x y e f t = absurd (cc)
  locate-set_new p (z ∷ zs) zero x y e f t = rw t refl
  locate-set_new p (z ∷ zs) (suc i) x y e f t = elim (Bool-cases (p z)) [
    | inl here ↦ absurd (ground arith)
    | inr there ↦ elim (Option-cases (locate p zs)) [
      | inl gone ↦ ground (arith, locate-set_new p zs i x y)
      | inr ((j, w), found) ↦ absurd (ground arith)
    ]
  ]

  -- A search in which no element passes finds none.
  pub locate-none :
      (p : A → Bool) (xs : List A)
      → ((i : ℕ) (x : A) → get_elem? xs i ≡ some x → p x ≡ false)
      → locate p xs ≡ none
  unfolding locate
  locate-none p [] h = refl
  locate-none p (z ∷ zs) h = rw (h 0 z refl, locate-none p zs (λ i. h (suc i))) refl

  pub position-some :
      (p : A → Bool) (xs : List A) (i : ℕ)
      → position p xs ≡ some i
      → (x : A) × (get_elem? xs i ≡ some x) × (p x ≡ true)
  unfolding position
  position-some p xs i e = elim (Option-cases (locate p xs)) [
    | inl gone ↦ absurd (ground arith)
    | inr ((k, x), found) ↦
        let (at, test, before) = subst (Located p xs) found (locate-Located p xs) in
        let same : k ≡ i = ground arith in (x, subst (λ n. get_elem? xs n ≡ some x) same at, test)
  ]

  pub position-none : (p : A → Bool) (xs : List A) → position p xs ≡ none → locate p xs ≡ none
  unfolding position
  position-none p xs e = elim (Option-cases (locate p xs)) [
    | inl gone ↦ gone
    | inr ((k, x), found) ↦ absurd (ground arith)
  ]

  -- A write of an element that passes, with none before it that does, is found.
  pub locate-set_first :
      (p : A → Bool) (xs : List A) (i : ℕ) (x : A)
      → i < length xs
      → ((j : ℕ) (y : A) → j < i → get_elem? xs j ≡ some y → p y ≡ false)
      → p x ≡ true
      → locate p (set xs i x) ≡ some (i, x)
  unfolding locate
  locate-set_first p [] i x h lower test = absurd (omega arith)
  locate-set_first p (y ∷ ys) zero x h lower test = rw test refl
  locate-set_first p (y ∷ ys) (suc i) x h lower test =
      let skip = lower 0 y (omega arith) refl in
      let rest =
        locate-set_first p ys i x (omega arith) (λ j z l at. lower (suc j) z (omega arith) at)
          test in
      rw (skip, rest) refl
