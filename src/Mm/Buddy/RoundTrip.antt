-- ===== src/Mm/Buddy/RoundTrip.antt =====
-- Freeing what mm/src/buddy.rs has just allocated restores the allocator.
use cyanos.Base.{
  ℕ, zero, suc, ◌+◌, ◌%◌, ◌≤◌, ◌<◌, ◌≡◌, refl, ap, subst, ◌∙◌, ◌≢◌, Option, none, some, List, [],
  ◌∷◌, arith, length, set, get_or-set_ne, ◌*◌, ◌^◌, min, sym, ==_true, get_or-set_self, set-set,
  set-get_or, ◌-◌, ℕ_discrete, lt→ltb, length-set, add64,
}
use native.Mathlib.Nat.{pow-suc, zero-mod, mod-mod_of_dvd, dvd-mul_right}
use cyanos.Mm.Buddy.{Buddy, max_order, head_at, block_size, split_down, alloc, merge, free}
use cyanos.Base.Bits.Mask.{pow_pos}
use cyanos.Mm.Buddy.Pages.{buddy_of_aligned}
use cyanos.Mm.Buddy.Alloc.{HasLists, FoundBlock, alloc_cases, length-split_down, Vacant}

set_comm :
    (ls : List (Option ℕ)) (i j : ℕ) (v w : Option ℕ)
    → i ≢ j
    → set (set ls i v) j w ≡ set (set ls j w) i v
set_comm [] i j v w h = refl
set_comm (x ∷ ls) zero zero v w h = absurd (h refl)
set_comm (x ∷ ls) zero (suc j) v w h = refl
set_comm (x ∷ ls) (suc i) zero v w h = refl
set_comm (x ∷ ls) (suc i) (suc j) v w h = ap (λ r. x ∷ r) (set_comm ls i j v w (λ e. h (ap suc e)))

-- The lowest block that a split puts back, seen as the last write.
split_down-bottom :
    (order k addr : ℕ) (ls : List (Option ℕ))
    → split_down order (suc k) addr ls
      ≡ set (split_down (suc order) k addr ls) order (some (addr + block_size order))
unfolding split_down
split_down-bottom order zero addr ls =
    let same : order + 0 ≡ order = omega arith in
    ap (λ t. set ls t (some (addr + block_size t))) same
split_down-bottom order (suc k) addr ls =
    let same : order + suc k ≡ suc order + k = omega arith in
    rw same (
      split_down-bottom order k addr
        (set ls (suc order + k) (some (addr + block_size (suc order + k)))))

split_down-untouched :
    (order k addr i : ℕ) (ls : List (Option ℕ))
    → i < order
    → head_at (split_down order k addr ls) i ≡ head_at ls i
unfolding split_down
split_down-untouched order zero addr i ls h = refl
split_down-untouched order (suc k) addr i ls h =
    split_down-untouched order k addr i (set ls (order + k) (some (addr + block_size (order + k))))
      h
    ∙ get_or-set_ne ls {i = order + k} {j = i} (some (addr + block_size (order + k))) none
        (omega arith)

-- A block is aligned for its own order, and so for every order below.
aligned_before : (order addr : ℕ) → addr % block_size (suc order) ≡ 0 → addr % block_size order ≡ 0
aligned_before order addr e =
    let twice : block_size (suc order) ≡ block_size order * 2 = omega (arith, pow-suc 2 order) in
    sym (mod-mod_of_dvd (block_size order) addr (dvd-mul_right (block_size order) 2))
    ∙ ap (λ t. t % block_size order) (ap (λ t. addr % t) (sym twice) ∙ e)
    ∙ zero-mod (block_size order)

aligned_below : (order k addr : ℕ) → addr % block_size (order + k) ≡ 0 → addr % block_size order ≡ 0
aligned_below order zero addr e =
    let same : order + 0 ≡ order = omega arith in subst (λ t. addr % block_size t ≡ 0) same e
aligned_below order (suc k) addr e =
    let same : order + suc k ≡ suc (order + k) = omega arith in
    aligned_below order k addr
      (aligned_before (order + k) addr (subst (λ t. addr % block_size t ≡ 0) same e))

merge-vacant :
    (n order addr : ℕ) (ls : List (Option ℕ))
    → head_at ls order ≡ none
    → merge n order addr ls ≡ set ls order (some addr)
unfolding merge
merge-vacant zero order addr ls e = refl
merge-vacant (suc n) order addr ls e = rw e

-- One round of the loop, where the list holds the buddy.
merge-buddy :
    (n order addr : ℕ) (ls : List (Option ℕ))
    → order < length ls
    → addr % block_size (suc order) ≡ 0
    → head_at ls order ≡ none
    → merge (suc n) order addr (set ls order (some (addr + block_size order)))
      ≡ merge n (suc order) addr ls
unfolding merge
merge-buddy n order addr ls h al e =
    let pair = buddy_of_aligned addr order al in
    let there = get_or-set_self ls order (some (addr + block_size order)) none h in
    let first : min addr (addr + block_size order) ≡ addr = omega arith in
    let next : order + 1 ≡ suc order = omega arith in
    rw (
      pair,
      there,
      ==_true (addr + block_size order) (addr + block_size order) refl,
      first,
      set-set ls order (some (addr + block_size order)) none,
      set-get_or ls order none none h e,
      next,
    )

split_down-zero :
    (order addr : ℕ) (ls : List (Option ℕ)) (n : ℕ)
    → merge n order addr (split_down order 0 addr ls) ≡ merge n order addr ls
unfolding split_down
split_down-zero order addr ls n = refl

-- Freeing merges the blocks that the split put back, one order after the other.
merge-split_down :
    (order k n addr : ℕ) (ls : List (Option ℕ))
    → order + k < length ls
    → k ≤ n
    → addr % block_size (order + k) ≡ 0
    → Vacant ls order (suc (order + k))
    → merge n order addr (split_down order k addr ls) ≡ set ls (order + k) (some addr)
merge-split_down order zero n addr ls h kn al e =
    let same : order ≡ order + 0 = omega arith in
    split_down-zero order addr ls n
    ∙ merge-vacant n order addr ls (e order (omega arith) (omega arith))
    ∙ ap (λ t. set ls t (some addr)) same
merge-split_down order (suc k) zero addr ls h kn al e = absurd (omega arith)
merge-split_down order (suc k) (suc n) addr ls h kn al e =
    let up : order + suc k ≡ suc order + k = omega arith in
    let al' : addr % block_size (suc order + k) ≡ 0 = subst (λ t. addr % block_size t ≡ 0) up al in
    rw
      (
        split_down-bottom order k addr ls,
        merge-buddy n order addr (split_down (suc order) k addr ls)
            (omega (arith, length-split_down (suc order) k addr ls))
            (aligned_below (suc order) k addr al')
            (split_down-untouched (suc order) k addr order ls (omega arith)
              ∙ e order (omega arith) (omega arith)),
      )
      (merge-split_down (suc order) k n addr ls (omega arith) (omega arith) al'
          (λ m a b. e m (omega arith) (omega arith))
        ∙ ap (λ t. set ls t (some addr)) (sym up))

merge-alloc :
    (order addr : ℕ) (ls ls' : List (Option ℕ))
    → HasLists ls
    → ((o : ℕ) (a : ℕ) → head_at ls o ≡ some a → a % block_size o ≡ 0)
    → FoundBlock order ls order (max_order - order) addr ls'
    → merge (max_order - 1 - order) order addr ls' ≡ ls
merge-alloc order addr ls ls' v aligned f =
    let cut = set ls f.at none in
    let up : order + (f.at - order) ≡ f.at = omega (arith, f.from) in
    let inside : f.at < length ls = omega (arith, f.from, f.upto) in
    let vacant : Vacant cut order (suc (order + (f.at - order))) = λ m a b.
      elim (ℕ_discrete f.at m) [
        | yes same ↦
            subst (λ t. head_at cut t ≡ none) same (get_or-set_self ls f.at none none inside)
        | no ne ↦ get_or-set_ne ls {i = f.at} {j = m} none none ne ∙ f.below m a (omega arith)
      ] in
    rw f.left (
      merge-split_down order (f.at - order) (max_order - 1 - order) addr cut
        (omega (arith, length-set ls f.at none)) (omega (arith, f.from, f.upto))
        (subst (λ t. addr % block_size t ≡ 0) (sym up) (aligned f.at addr f.block)) vacant
      ∙ ap (λ t. set cut t (some addr)) up
      ∙ set-set ls f.at none (some addr)
      ∙ set-get_or ls f.at (some addr) none inside f.block)

-- When there are 11 lists whose free blocks are aligned for their orders, and the counter of free
-- pages is a word that covers the block, a block taken by `alloc` and given back by `free` with the
-- same order leaves the allocator exactly as it was: every split is undone, and the counters agree.
pub free-alloc :
    (order addr : ℕ) (b b' : Buddy)
    → HasLists b.free_lists
    → ((o : ℕ) (a : ℕ) → head_at b.free_lists o ≡ some a → a % block_size o ≡ 0)
    → 2 ^ order ≤ b.free_pages
    → b.free_pages < 2 ^ 64
    → alloc order b ≡ some (some addr, b')
    → free addr order b' ≡ some b
unfolding free
free-alloc order addr b b' v aligned enough small e =
    let (f, _, _, counter, total) = (alloc_cases order b v).2 addr b' e in
    let lists = merge-alloc order addr b.free_lists b'.free_lists v aligned f in
    let pages : add64 b'.free_pages (2 ^ order) ≡ b.free_pages = omega (arith, pow_pos order) in
    rw (lt→ltb order max_order (omega (arith, f.from, f.upto)), lists, pages, total) refl
