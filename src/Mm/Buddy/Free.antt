-- ===== src/Mm/Buddy/Free.antt =====
-- How many pages `free` of mm/src/buddy.rs puts into the free lists, and how many it loses.
use cyanos.Base.{
  ℕ, zero, suc, ◌+◌, ◌-◌, ◌*◌, ◌^◌, ◌≤◌, ◌<◌, min, ◌≡◌, ap, ◌∙◌, inl, inr, Option, none, some, List,
  arith, Bool-cases, length, set, length-set, add64, refl, ◌≢◌, false, ==_false, lt→ltb,
  get_or-set_self,
}
use native.Mathlib.Nat.{pow-suc}
use cyanos.Mm.Buddy.{Buddy, max_order, head_at, merge, free, buddy_of, is_some_of}
use cyanos.Mm.Buddy.Pages.{held, held-set, pages_of}
use cyanos.Mm.Buddy.Alloc.{HasLists}

length-merge :
    (n order addr : ℕ) (ls : List (Option ℕ)) → length (merge n order addr ls) ≡ length ls
unfolding merge
length-merge zero order addr ls = length-set ls order (some addr)
length-merge (suc n) order addr ls =
    elim (Bool-cases (is_some_of (buddy_of addr order) (head_at ls order))) [
      | inl e ↦ rw e (
          length-merge n (order + 1) (min addr (buddy_of addr order)) (set ls order none)
          ∙ length-set ls order none)
      | inr e ↦ rw e (length-set ls order (some addr))
    ]

held-merge-le :
    (n order addr : ℕ) (ls : List (Option ℕ))
    → order + n < length ls
    → held (merge n order addr ls) ≤ held ls + 2 ^ order
unfolding merge
held-merge-le zero order addr ls h = omega (arith, held-set ls order (some addr) (omega arith))
held-merge-le (suc n) order addr ls h =
    elim (Bool-cases (is_some_of (buddy_of addr order) (head_at ls order))) [
      | inr e ↦ rw e (omega (arith, held-set ls order (some addr) (omega arith)))
      | inl e ↦
          let emptied = held-set ls order none (omega arith) in
          let had : pages_of order (head_at ls order) ≡ 2 ^ order = ground arith in
          let twice : 2 ^ (order + 1) ≡ 2 * 2 ^ order =
            ap (λ t. 2 ^ t) next ∙ omega (arith, pow-suc 2 order) in
          rw e (
            omega (
              arith,
              held-merge-le n (order + 1) (min addr (buddy_of addr order)) (set ls order none)
                  (omega (arith, length-set ls order none)),
            ))
    ]
  where
    next : order + 1 ≡ suc order
    next = omega arith

abbrev after_free : ℕ → ℕ → Buddy → Buddy
after_free order addr b = record b {
  free_lists = merge (max_order - 1 - order) order addr b.free_lists;
  free_pages = add64 b.free_pages (2 ^ order);
}

free-some :
    (order addr : ℕ) (b : Buddy)
    → order < max_order
    → free addr order b ≡ some (after_free order addr b)
unfolding free
free-some order addr b h = rw (lt→ltb order max_order h)

merge-unpaired :
    (n order addr : ℕ) (ls : List (Option ℕ))
    → is_some_of (buddy_of addr order) (head_at ls order) ≡ false
    → merge n order addr ls ≡ set ls order (some addr)
unfolding merge
merge-unpaired zero order addr ls e = refl
merge-unpaired (suc n) order addr ls e = rw e

-- At an order below 11 `free` succeeds, the counter of free pages grows by `2 ^ order`, and the
-- lists hold at most that many pages more.
free_lem :
    (order addr : ℕ) (b : Buddy)
    → HasLists b.free_lists
    → order < max_order
    → (b' : Buddy) × (free addr order b ≡ some b')
      × HasLists b'.free_lists
      × (b'.free_pages ≡ add64 b.free_pages (2 ^ order))
      × (held b'.free_lists ≤ held b.free_lists + 2 ^ order)
free_lem order addr b v h = (
  after_free order addr b,
  free-some order addr b h,
  length-merge (max_order - 1 - order) order addr b.free_lists ∙ v,
  refl,
  held-merge-le (max_order - 1 - order) order addr b.free_lists (omega arith),
)

-- A list keeps one block: with 11 lists and an order below 11, freeing a block while the list of its
-- order holds a block that is not its buddy replaces that one. The lists then hold as many pages as
-- before, the freed block stands in the list, and the counter of free pages has grown all the same.
free_loses :
    (order addr other : ℕ) (b : Buddy)
    → HasLists b.free_lists
    → order < max_order
    → head_at b.free_lists order ≡ some other
    → other ≢ buddy_of addr order
    → (b' : Buddy) × (free addr order b ≡ some b')
      × (held b'.free_lists ≡ held b.free_lists)
      × (head_at b'.free_lists order ≡ some addr)
      × (b'.free_pages ≡ add64 b.free_pages (2 ^ order))
free_loses order addr other b v h e ne =
    let kept : is_some_of (buddy_of addr order) (head_at b.free_lists order) ≡ false =
      rw (e, ==_false other (buddy_of addr order) ne) in
    let was : pages_of order (head_at b.free_lists order) ≡ 2 ^ order = rw e in
    let lists = merge-unpaired (max_order - 1 - order) order addr b.free_lists kept in
    (
      after_free order addr b,
      free-some order addr b h,
      rw lists (omega (arith, held-set b.free_lists order (some addr) (omega arith))),
      rw lists (get_or-set_self b.free_lists order (some addr) none (omega arith)),
      refl,
    )
