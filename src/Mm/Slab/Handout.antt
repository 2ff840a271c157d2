-- ===== src/Mm/Slab/Handout.antt =====
-- The slot that a cache of mm/src/slab.rs hands out.
use cyanos.Base.{ℕ, ◌≡◌, sym, ◌≢◌, List, [], ◌∷◌, ==_false, ◌⊎◌, some, ◌∙◌}
use cyanos.Mm.Buddy
use cyanos.Mm.Buddy.{Buddy}
use cyanos.Mm.Slab.{Slab, cache_at, pop_slot, cache_free, cache_alloc}
use cyanos.Mm.Slab.Chain.{Avoids, Frees, cache_free-Frees, pop_slot-Frees}

-- What is left of the list when its head `p` has been taken from `l`, and what that says of `p`.
abbrev pub Taken : ℕ → ℕ → Slab → List ℕ → Type 0
Taken idx p s' l = (r : List ℕ) × Frees idx s' r × (p ≢ 0) × Avoids p r × ((l ≡ []) ⊎ (l ≡ p ∷ r))

-- A slot other than null that is not in the free list, once freed, is the next one that the cache
-- hands out, and the free list is then as before.
cache_alloc-cache_free :
    (idx ptr : ℕ) (s : Slab) (l : List ℕ)
    → ptr ≢ 0
    → Avoids ptr l
    → Frees idx s l
    → (s' : Slab) × (cache_alloc idx (cache_free idx ptr s) ≡ some (some ptr, s')) × Frees idx s' l
unfolding cache_alloc
cache_alloc-cache_free idx ptr s l nz av v =
    let w = cache_free-Frees idx ptr s l nz av v in
    let ne : (cache_at idx (cache_free idx ptr s)).free_head ≢ 0 =
      λ z. w.chain.1 (sym w.chain.0 ∙ z) in
    let (first, rest) = pop_slot-Frees idx ptr (cache_free idx ptr s) l w in
    ((pop_slot idx (cache_free idx ptr s)).1, rw (==_false _ 0 ne, first), rest)
