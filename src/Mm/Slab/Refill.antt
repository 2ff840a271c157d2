-- ===== src/Mm/Slab/Refill.antt =====
-- What `refill` of mm/src/slab.rs adds to the free list.
use native.Mathlib.Nat.{div-add-mod, mod-lt}
use cyanos.Base.{
  ℕ, ◌<◌, ◌≡◌, List, [], ◌∷◌, arith, length-set, zero, suc, ◌+◌, refl, ==_true, get_or-set_self,
  ◌*◌, ◌/◌, ◌≤◌, ◌⊎◌, inl, true, some, ◌-◌, ap, ◌∙◌,
}
use cyanos.Mm.Buddy
use cyanos.Mm.Buddy.{Buddy, page_size}
use cyanos.Mm.Slab.{
  phys_to_virt, Memory, write, push_slots, Slab, Cache, cache_at, put_cache, no_cache, refill,
}
use cyanos.Mm.Slab.Chain.{Chain, Avoids, Once, Frees, Chain-write}

-- The slots that a refill adds, the last one first.
unfoldable pub slots_of : ℕ → ℕ → ℕ → List ℕ → List ℕ
slots_of zero size addr l = l
slots_of (suc n) size addr l = slots_of n size (addr + size) (addr ∷ l)

-- Every slot of the list lies below `lo` or from `hi` on.
abbrev Outside : ℕ → ℕ → List ℕ → Type 0
Outside lo hi [] = Unit {0}
Outside lo hi (b ∷ l) = ((b < lo) ⊎ (hi ≤ b)) × Outside lo hi l

Outside-Avoids : (lo hi : ℕ) (l : List ℕ) → lo < hi → Outside lo hi l → Avoids lo l
Outside-Avoids lo hi [] h o = tt
Outside-Avoids lo hi (b ∷ l) h o = (omega arith, Outside-Avoids lo hi l h o.1)

Outside-later : (lo lo' hi : ℕ) (l : List ℕ) → lo ≤ lo' → Outside lo hi l → Outside lo' hi l
Outside-later lo lo' hi [] h o = tt
Outside-later lo lo' hi (b ∷ l) h o = (omega arith, Outside-later lo lo' hi l h o.1)

push_slots-Chain :
    (n size addr hi head : ℕ) (m : Memory) (l : List ℕ)
    → 0 < size
    → 0 < addr
    → addr + n * size ≤ hi
    → Outside addr hi l
    → Once l
    → Chain m head l
    → Chain
        (push_slots n size addr head m).1
        (push_slots n size addr head m).0
        (slots_of n size addr l)
      × Once (slots_of n size addr l)
unfolding push_slots slots_of
push_slots-Chain zero size addr hi head m l hs ha fits out once c = (c, once)
push_slots-Chain (suc n) size addr hi head m l hs ha fits out once c =
    let room : addr + size + n * size ≤ hi = grind arith in
    let av = Outside-Avoids addr hi l (omega arith) out in
    push_slots-Chain n size (addr + size) hi addr (write addr head m) (addr ∷ l) hs (omega arith)
      room (inl (omega arith), Outside-later addr (addr + size) hi l (omega arith) out) (av, once)
      (refl, omega arith, rw (==_true addr addr refl) (Chain-write m addr head head l av c))

-- A refill of at least one slot leaves a list that is not empty.
slots_of-cons :
    (n size addr : ℕ) (l : List ℕ) → (a : ℕ) × (r : List ℕ) × (slots_of (suc n) size addr l ≡ a ∷ r)
unfolding slots_of
slots_of-cons zero size addr l = (addr, l, refl)
slots_of-cons (suc n) size addr l = slots_of-cons n size (addr + size) (addr ∷ l)

-- `refill` with a page at hand.
unfoldable pub refilled : ℕ → ℕ → Buddy → Slab → Slab
refilled idx phys b s =
    let c = cache_at idx s in
    let (head, m) =
      push_slots (page_size / c.obj_size) c.obj_size (phys_to_virt phys s) c.free_head s.memory in
    put_cache idx (record c { free_head = head }) (record s { memory = m; pages = b })

pub refill-page :
    (idx phys : ℕ) (b : Buddy) (s : Slab)
    → Buddy.alloc 0 s.pages ≡ some (some phys, b)
    → refill idx s ≡ some (true, refilled idx phys b s)
unfolding refill refilled
refill-page idx phys b s e = rw (e, refill)

unfoldable pub page_slots : ℕ → ℕ → Slab → List ℕ
page_slots idx phys s =
    slots_of (page_size / (cache_at idx s).obj_size) (cache_at idx s).obj_size (phys_to_virt phys s)
      []

pub refilled-Frees :
    (idx phys : ℕ) (b : Buddy) (s : Slab)
    → 0 < (cache_at idx s).obj_size
    → 0 < phys_to_virt phys s
    → Frees idx s []
    → Frees idx (refilled idx phys b s) (page_slots idx phys s)
unfolding refilled page_slots
refilled-Frees idx phys b s hs hv v =
    let c = cache_at idx s in
    let n = page_size / c.obj_size in
    let pushed =
      push_slots-Chain n c.obj_size (phys_to_virt phys s) (phys_to_virt phys s + n * c.obj_size)
        c.free_head s.memory [] hs hv (omega arith) tt tt v.chain in
    let after : Cache = record c {
      free_head = (push_slots n c.obj_size (phys_to_virt phys s) c.free_head s.memory).0;
    } in
    record {
      known = omega (arith, v.known, length-set s.caches idx after);
      chain = rw (get_or-set_self s.caches idx after no_cache v.known) pushed.0;
      once = pushed.1;
    }

pub page_slots-cons :
    (idx phys : ℕ) (s : Slab)
    → 0 < (cache_at idx s).obj_size
    → (cache_at idx s).obj_size ≤ page_size
    → (a : ℕ) × (r : List ℕ) × (page_slots idx phys s ≡ a ∷ r)
unfolding page_slots
page_slots-cons idx phys s hs hp =
    let size = (cache_at idx s).obj_size in
    let n = page_size / size in
    let some_slot : 0 < n = grind (arith, div-add-mod page_size size, mod-lt page_size hs) in
    let e : n ≡ suc (n - 1) = omega arith in
    let (a, r, c) = slots_of-cons (n - 1) size (phys_to_virt phys s) [] in
    (a, r, ap (λ k. slots_of k size (phys_to_virt phys s) []) e ∙ c)
