-- ===== src/Mm/Buddy/Alloc.antt =====
-- What `alloc` of mm/src/buddy.rs takes from the free lists.
use cyanos.Base.{
  ℕ, zero, suc, ◌+◌, ◌*◌, ◌^◌, ◌≤◌, ◌<◌, ◌≡◌, refl, ap, ◌∙◌, Option, none, some, List, arith,
  length, set, length-set, get_or-set_ne, ◌-◌, subst, inl, inr, dec_lt, ℕ_discrete, Option-cases,
  ltb-false, lt→ltb, sub64, sym,
}
use native.Mathlib.Nat.{pow-suc}
use cyanos.Mm.Buddy.{Buddy, max_order, head_at, block_size, split_down, alloc_from, alloc}
use cyanos.Mm.Buddy.Pages.{held, held-set, pages_of}

-- The invariant of the allocator: a free list for each order.
abbrev pub HasLists : List (Option ℕ) → Type 0
HasLists ls = length ls ≡ max_order

pub length-split_down :
    (order k addr : ℕ) (ls : List (Option ℕ)) → length (split_down order k addr ls) ≡ length ls
unfolding split_down
length-split_down order zero addr ls = refl
length-split_down order (suc k) addr ls =
    length-split_down order k addr (set ls (order + k) (some (addr + block_size (order + k))))
    ∙ length-set ls (order + k) (some (addr + block_size (order + k)))

-- The orders from `i` up to `j` hold no block.
abbrev pub Vacant : List (Option ℕ) → ℕ → ℕ → Type 0
Vacant ls i j = (k : ℕ) → i ≤ k → k < j → head_at ls k ≡ none

-- Splitting a block down to `order` puts back all but `2 ^ order` of its pages.
held-split_down :
    (order k addr : ℕ) (ls : List (Option ℕ))
    → order + k < length ls
    → Vacant ls order (order + k)
    → held (split_down order k addr ls) + 2 ^ order ≡ held ls + 2 ^ (order + k)
unfolding split_down
held-split_down order zero addr ls h e =
    let same : order ≡ order + 0 = omega arith in ap (λ t. held ls + 2 ^ t) same
held-split_down order (suc k) addr ls h e =
    let ls' = set ls (order + k) (some (addr + block_size (order + k))) in
    let vacant : Vacant ls' order (order + k) = λ m a b.
      get_or-set_ne ls {i = order + k} {j = m} (some (addr + block_size (order + k))) none
        (omega arith)
      ∙ e m a (omega arith) in
    let ih =
      held-split_down order k addr ls'
        (omega (arith, length-set ls (order + k) (some (addr + block_size (order + k))))) vacant in
    let written = held-set ls (order + k) (some (addr + block_size (order + k))) (omega arith) in
    let gone = e (order + k) (omega arith) (omega arith) in
    let next : 2 ^ (order + suc k) ≡ 2 * 2 ^ (order + k) =
      ap (λ t. 2 ^ t) (suc_right order k) ∙ omega (arith, pow-suc 2 (order + k)) in
    let none_there : pages_of (order + k) (head_at ls (order + k)) ≡ 0 = rw gone in omega arith
  where
    suc_right : (a b : ℕ) → a + suc b ≡ suc (a + b)
    suc_right a b = omega arith

-- The block that the search finds: the first at or above the order asked for.
pub record FoundBlock (order : ℕ) (ls : List (Option ℕ)) (o n addr : ℕ) (ls' : List (Option ℕ))
    : Type 0 where
  pub at : ℕ
  pub from : o ≤ at
  pub upto : at < o + n
  pub block : head_at ls at ≡ some addr
  pub below : Vacant ls o at
  pub left : ls' ≡ split_down order (at - order) addr (set ls at none)

alloc_from-FoundBlock :
    (order n o : ℕ) (ls : List (Option ℕ)) (addr : ℕ) (ls' : List (Option ℕ))
    → alloc_from order n o ls ≡ some (addr, ls')
    → FoundBlock order ls o n addr ls'
unfolding alloc_from
alloc_from-FoundBlock order zero o ls addr ls' e = absurd (cc)
alloc_from-FoundBlock order (suc n) o ls addr ls' e = elim (Option-cases (head_at ls o)) [
  | inl empty ↦
      let f = alloc_from-FoundBlock order n (o + 1) ls addr ls' (rw (empty, alloc_from) at e) in
      record {
        at = f.at;
        from = omega (arith, f.from);
        upto = omega (arith, f.upto);
        block = f.block;
        below = λ m a b. elim (ℕ_discrete m o) [
          | yes same ↦ rw same empty
          | no later ↦ f.below m (omega arith) b
        ];
        left = f.left;
      }
  | inr (a, here) ↦
      let found : ◌≡◌ {A = Option (ℕ × List (Option ℕ))}
          (some (a, split_down order (o - order) a (set ls o none))) (some (addr, ls')) =
        rw (here, alloc_from) at e in
      let same : a ≡ addr = ground arith in
      record {
        at = o;
        from = omega arith;
        upto = omega arith;
        block = here ∙ ap some same;
        below = λ m p q. absurd (omega arith);
        left =
            subst (λ t. ls' ≡ split_down order (o - order) t (set ls o none)) same (ground arith);
      }
]

alloc_from-none :
    (order n o : ℕ) (ls : List (Option ℕ)) → alloc_from order n o ls ≡ none → Vacant ls o (o + n)
unfolding alloc_from
alloc_from-none order zero o ls e m a b = absurd (omega arith)
alloc_from-none order (suc n) o ls e m a b = elim (Option-cases (head_at ls o)) [
  | inl empty ↦ elim (ℕ_discrete m o) [
    | yes same ↦ rw same empty
    | no later ↦
        alloc_from-none order n (o + 1) ls (rw (empty, alloc_from) at e) m (omega arith)
          (omega arith)
  ]
  | inr (x, here) ↦ absurd (ground arith)
]

-- The search takes exactly the pages asked for out of the lists.
alloc_from-held :
    (order : ℕ) (ls : List (Option ℕ)) (addr : ℕ) (ls' : List (Option ℕ))
    → HasLists ls
    → FoundBlock order ls order (max_order - order) addr ls'
    → HasLists ls' × (held ls' + 2 ^ order ≡ held ls)
alloc_from-held order ls addr ls' v f =
    let inside : f.at < length ls = omega (arith, f.from, f.upto) in
    let cut = set ls f.at none in
    let up : order + (f.at - order) ≡ f.at = omega (arith, f.from) in
    let vacant : Vacant cut order (order + (f.at - order)) = λ m a b.
      get_or-set_ne ls {i = f.at} {j = m} none none (omega arith) ∙ f.below m a (omega arith) in
    let split =
      held-split_down order (f.at - order) addr cut (omega (arith, length-set ls f.at none))
        vacant in
    let removed = held-set ls f.at none inside in
    let was : pages_of f.at (head_at ls f.at) ≡ 2 ^ f.at = ap (pages_of f.at) f.block in
    let size : 2 ^ (order + (f.at - order)) ≡ 2 ^ f.at = ap (λ t. 2 ^ t) up in
    rw f.left
      (length-split_down order (f.at - order) addr cut ∙ length-set ls f.at none ∙ v, omega arith)

pub alloc_cases :
    (order : ℕ) (b : Buddy)
    → HasLists b.free_lists
    → (max_order ≤ order → alloc order b ≡ none)
      × ((b' : Buddy)
          → alloc order b ≡ some (none, b')
          → Vacant b.free_lists order max_order × (b' ≡ b))
      × ((addr : ℕ) (b' : Buddy)
          → alloc order b ≡ some (some addr, b')
          → FoundBlock order b.free_lists order (max_order - order) addr b'.free_lists
            × HasLists b'.free_lists
            × (held b'.free_lists + 2 ^ order ≡ held b.free_lists)
            × (b'.free_pages ≡ sub64 b.free_pages (2 ^ order))
            × (b'.total_pages ≡ b.total_pages))
unfolding alloc
alloc_cases order b v = elim (dec_lt order max_order) [
  | no p ↦
      rw (ltb-false order max_order (omega arith))
        (λ _. refl, λ b' e. absurd (cc), λ addr b' e. absurd (cc))
  | yes p ↦
      rw (lt→ltb order max_order p)
        (elim (Option-cases (alloc_from order (max_order - order) order b.free_lists)) [
          | inl e ↦ rw e (
            λ h. absurd (omega arith),
            λ b' c. (
              λ m a q.
                  alloc_from-none order (max_order - order) order b.free_lists e m a (omega arith),
              sym (ground arith),
            ),
            λ addr b' c. absurd (ground arith),
          )
          | inr ((addr, ls), e) ↦ rw e (
            λ h. absurd (omega arith),
            λ b' c. absurd (ground arith),
            λ addr' b' c.
                let same : addr ≡ addr' = ground arith in
                let after : record b {
                  free_lists = ls;
                  free_pages = sub64 b.free_pages (2 ^ order);
                }
                    ≡ b' =
                  ground arith in
                let f =
                  alloc_from-FoundBlock order (max_order - order) order b.free_lists addr' ls (
                    subst
                      (λ a. alloc_from order (max_order - order) order b.free_lists ≡ some (a, ls))
                      same e) in
                let h = alloc_from-held order b.free_lists addr' ls v f in
                rw (← after) (f, h.0, h.1, refl, refl),
          )
        ])
]

-- What an allocation at this order may be; the outer `none` is a panic.
abbrev pub Allocated : ℕ → Buddy → Option (Option ℕ × Buddy) → Type 0
Allocated order b none = max_order ≤ order
Allocated order b (some (none, b')) = Vacant b.free_lists order max_order × (b' ≡ b)
Allocated order b (some (some addr, b')) =
    FoundBlock order b.free_lists order (max_order - order) addr b'.free_lists
    × HasLists b'.free_lists
    × (held b'.free_lists + 2 ^ order ≡ held b.free_lists)
    × (b'.free_pages ≡ sub64 b.free_pages (2 ^ order))
    × (b'.total_pages ≡ b.total_pages)

-- With 11 lists, `alloc` panics only at an order above 10. Otherwise it either finds no block at the
-- order asked for or above, and changes nothing, or it takes the smallest block there is, and the
-- lists hold exactly `2 ^ order` pages less than before.
pub alloc_lem : (order : ℕ) (b : Buddy) → HasLists b.free_lists → Allocated order b (alloc order b)
unfolding alloc
alloc_lem order b v = elim (dec_lt order max_order) [
  | no p ↦ rw (ltb-false order max_order (omega arith)) (omega arith)
  | yes p ↦
      let (_, none_found, found) = alloc_cases order b v in
      elim (Option-cases (alloc order b)) [
        | inl e ↦ absurd (ground arith)
        | inr ((none, b'), e) ↦ subst (Allocated order b) (sym e) (none_found b' e)
        | inr ((some addr, b'), e) ↦ subst (Allocated order b) (sym e) (found addr b' e)
      ]
]
