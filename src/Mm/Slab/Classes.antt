-- ===== src/Mm/Slab/Classes.antt =====
-- The size classes of mm/src/slab.rs, and the order of a large request.
use cyanos.Base.{
  ℕ, zero, suc, ◌+◌, ◌*◌, ◌^◌, ◌≤◌, ◌<◌, ◌≡◌, sym, ap, subst, ◌∙◌, ◌⊎◌, inr, none, some, arith,
  dec_lt, ltb-false, lt→ltb, get_or, refl, inl, List, [], ◌∷◌, length, All, Option, Option-cases,
}
use native.Mathlib.Nat.{pow-suc, pow-le-pow_right}
use cyanos.Mm.Slab.{size_classes, class_from, size_class_idx, order_loop, pages_to_order}
use cyanos.Mm.Buddy.{max_order}

before_suc :
    (s : ℕ) (ss : List ℕ) (size i : ℕ)
    → s < size
    → ((j : ℕ) → j < i → get_or ss j 0 < size)
    → (j : ℕ) → j < suc i
    → get_or (s ∷ ss) j 0 < size
before_suc s ss size i first rest zero h = first
before_suc s ss size i first rest (suc j) h = rest j (omega arith)

class_from-some :
    (size : ℕ) (ss : List ℕ) (i : ℕ)
    → class_from size ss ≡ some i
    → (size ≤ get_or ss i 0) × (i < length ss) × ((j : ℕ) → j < i → get_or ss j 0 < size)
unfolding class_from
class_from-some size [] i e = absurd (cc)
class_from-some size (s ∷ ss) zero e = (ground arith, omega arith, λ j h. absurd (omega arith))
class_from-some size (s ∷ ss) (suc i) e =
    let first : s < size = ground arith in
    let (fits, inside, smaller) = class_from-some size ss i (ground arith) in
    (fits, omega arith, before_suc s ss size i first smaller)

class_from-none : (size : ℕ) (ss : List ℕ) → class_from size ss ≡ none → All (λ s. s < size) ss
unfolding class_from
class_from-none size [] e = tt
class_from-none size (s ∷ ss) e = (ground arith, class_from-none size ss (ground arith))

size_class_idx_cases :
    (size : ℕ)
    → ((i : ℕ)
        → size_class_idx size ≡ some i
        → (size ≤ get_or size_classes i 0)
          × (i < 10)
          × ((j : ℕ) → j < i → get_or size_classes j 0 < size))
      × (size_class_idx size ≡ none → 4096 < size)
unfolding size_class_idx
size_class_idx_cases size = (
  λ i e. class_from-some size size_classes i e,
  λ e. omega (arith, class_from-none size size_classes e),
)

-- The order computed for a number of pages is the smallest whose block is large enough.
order_loop_lem :
    (fuel pages order : ℕ)
    → pages ≤ 2 ^ (order + fuel)
    → (order ≡ 0) ⊎ (2 ^ order < 2 * pages)
    → let o = order_loop fuel pages (2 ^ order) order in
      (pages ≤ 2 ^ o) × (o ≤ order + fuel) × ((o ≡ 0) ⊎ (2 ^ o < 2 * pages))
unfolding order_loop
order_loop_lem zero pages order h low =
    let same : order + 0 ≡ order = omega arith in
    (subst (λ t. pages ≤ 2 ^ t) same h, omega arith, low)
order_loop_lem (suc fuel) pages order h low =
    let next : 2 ^ order * 2 ≡ 2 ^ (order + 1) = sym (ap (λ t. 2 ^ t) one ∙ pow-suc 2 order) in
    let shift : order + suc fuel ≡ (order + 1) + fuel = omega arith in
    elim (dec_lt (2 ^ order) pages) [
      | yes p ↦
          rw (lt→ltb _ _ p, next)
            (let twice : 2 ^ (order + 1) ≡ 2 * 2 ^ order =
                ap (λ t. 2 ^ t) one ∙ omega (arith, pow-suc 2 order) in
              let ih =
                order_loop_lem fuel pages (order + 1) (subst (λ t. pages ≤ 2 ^ t) shift h)
                  (inr (omega arith)) in
              (ih.0, omega (arith, ih.1), ih.2))
      | no p ↦ rw (ltb-false (2 ^ order) pages (omega arith)) (omega arith, omega arith, low)
    ]
  where
    one : order + 1 ≡ suc order
    one = omega arith

pages_to_order_cases :
    (pages : ℕ)
    → (pages ≤ 1024
        → (o : ℕ) × (pages_to_order pages ≡ some o)
          × (pages ≤ 2 ^ o)
          × (o < max_order)
          × ((o ≡ 0) ⊎ (2 ^ o < 2 * pages)))
      × (1024 < pages → pages_to_order pages ≡ none)
unfolding pages_to_order
pages_to_order_cases pages = (
  λ h.
      let l = order_loop_lem max_order pages 0 (omega arith) (inl refl) in
      (order_loop max_order pages 1 0, rw (ltb-false 1024 pages h), l.0, within h l.0 l.2, l.2),
  λ h. rw (lt→ltb 1024 pages h),
)
  where
    big : (o : ℕ) → max_order ≤ o → 2048 ≤ 2 ^ o
    big o h = pow-le-pow_right {n = 2} (omega arith) {i = max_order} {j = o} h

    within : {o : ℕ} → pages ≤ 1024 → pages ≤ 2 ^ o → (o ≡ 0) ⊎ (2 ^ o < 2 * pages) → o < max_order
    within {o} h a (inl z) = omega arith
    within {o} h a (inr t) = elim (dec_lt o max_order) [
      | yes p ↦ p
      | no p ↦ absurd (omega (arith, big o (omega arith)))
    ]

-- What class a size may get.
abbrev ClassFor : ℕ → Option ℕ → Type 0
ClassFor size none = 4096 < size
ClassFor size (some i) =
    (size ≤ get_or size_classes i 0) × (i < 10) × ((j : ℕ) → j < i → get_or size_classes j 0 < size)

-- A request gets the smallest of the ten classes that is large enough, and none only if it is larger
-- than a page.
size_class_idx_lem : (size : ℕ) → ClassFor size (size_class_idx size)
size_class_idx_lem size = elim (Option-cases (size_class_idx size)) [
  | inl e ↦ subst (ClassFor size) (sym e) ((size_class_idx_cases size).1 e)
  | inr (i, e) ↦ subst (ClassFor size) (sym e) ((size_class_idx_cases size).0 i e)
]

-- What order a number of pages may get.
abbrev OrderFor : ℕ → Option ℕ → Type 0
OrderFor pages none = 1024 < pages
OrderFor pages (some o) = (pages ≤ 2 ^ o) × (o < max_order) × ((o ≡ 0) ⊎ (2 ^ o < 2 * pages))

-- A request gets the smallest order whose block covers it, which is at most 10, and none only if it
-- is for more than 1024 pages.
pages_to_order_lem : (pages : ℕ) → OrderFor pages (pages_to_order pages)
pages_to_order_lem pages = elim (dec_lt 1024 pages) [
  | yes h ↦ subst (OrderFor pages) (sym ((pages_to_order_cases pages).1 h)) h
  | no h ↦
      let (o, e, fits, small, least) = (pages_to_order_cases pages).0 (omega arith) in
      subst (OrderFor pages) (sym e) (fits, small, least)
]
