-- ===== src/Mm/Slab/Chain.antt =====
-- The free list that mm/src/slab.rs threads through the memory of the free slots.
use cyanos.Base.{
  ℕ, ◌<◌, ◌≡◌, sym, ◌≢◌, List, [], ◌∷◌, arith, ==_false, length, length-set, refl, ==_true,
  get_or-set_self,
}
use cyanos.Mm.Slab.{Memory, write, Slab, Cache, cache_at, put_cache, no_cache, pop_slot, cache_free}

-- From `head` on the words lead through exactly these slots, to the word 0.
abbrev pub Chain : Memory → ℕ → List ℕ → Type 0
Chain m head [] = head ≡ 0
Chain m head (a ∷ l) = (head ≡ a) × (a ≢ 0) × Chain m (m a) l

-- No slot of the list is `a`.
abbrev pub Avoids : ℕ → List ℕ → Type 0
Avoids a [] = Unit {0}
Avoids a (b ∷ bs) = (a ≢ b) × Avoids a bs

-- Each slot stands once in the list.
abbrev pub Once : List ℕ → Type 0
Once [] = Unit {0}
Once (a ∷ l) = Avoids a l × Once l

-- A write to a slot outside the list does not change the list.
pub Chain-write :
    (m : Memory) (a v head : ℕ) (l : List ℕ)
    → Avoids a l
    → Chain m head l
    → Chain (write a v m) head l
Chain-write m a v head [] av c = c
Chain-write m a v head (b ∷ bs) av c =
    (c.0, c.1, rw (==_false b a (λ e. av.0 (sym e))) (Chain-write m a v (m b) bs av.1 c.2))

put-cache_at :
    (idx : ℕ) (c : Cache) (s : Slab) → idx < length s.caches → cache_at idx (put_cache idx c s) ≡ c
put-cache_at idx c s h = get_or-set_self s.caches idx c no_cache h

-- The free list of a cache.
pub record Frees (idx : ℕ) (s : Slab) (l : List ℕ) : Type 0 where
  pub known : idx < length s.caches
  pub chain : Chain s.memory (cache_at idx s).free_head l
  pub once : Once l

-- `Cache::free` puts the slot in front of the free list.
pub cache_free-Frees :
    (idx ptr : ℕ) (s : Slab) (l : List ℕ)
    → ptr ≢ 0
    → Avoids ptr l
    → Frees idx s l
    → Frees idx (cache_free idx ptr s) (ptr ∷ l)
unfolding cache_free
cache_free-Frees idx ptr s l nz av v =
    let c : Cache = record (cache_at idx s) { free_head = ptr } in
    let m = write ptr (cache_at idx s).free_head s.memory in
    record {
      known = omega (arith, v.known, length-set s.caches idx c);
      chain =
          rw (get_or-set_self s.caches idx c no_cache v.known, ==_true ptr ptr refl)
            (
              refl,
              nz,
              Chain-write s.memory ptr (cache_at idx s).free_head (cache_at idx s).free_head l av
                  v.chain,
            );
      once = (av, v.once);
    }

-- Taking the head of a free list that is not empty.
pub pop_slot-Frees :
    (idx a : ℕ) (s : Slab) (l : List ℕ)
    → Frees idx s (a ∷ l)
    → ((pop_slot idx s).0 ≡ a) × Frees idx (pop_slot idx s).1 l
unfolding pop_slot
pop_slot-Frees idx a s l v =
    let c : Cache = record (cache_at idx s) { free_head = s.memory (cache_at idx s).free_head } in
    (
      v.chain.0,
      record {
        known = omega (arith, v.known, length-set s.caches idx c);
        chain = rw (get_or-set_self s.caches idx c no_cache v.known, v.chain.0) v.chain.2;
        once = v.once.1;
      },
    )
