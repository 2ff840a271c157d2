-- ===== src/Mm/Vmm/Map/Disjoint.antt =====
-- The mappings of mm/src/vmm.rs never overlap.
use cyanos.Base.{
  ap, ◌≤◌, ◌≡◌, ◌⊎◌, false, ◌&&◌, ◌||◌, none, some, [], ◌∷◌, arith, ltb, ℕ, zero, suc, ◌+◌, ◌*◌,
  ◌<◌, refl, inl, inr, if◌then◌else◌, Option-cases, set, sym, Bool, true, Bool-cases, subst, ap₂,
  ◌∙◌,
}
use cyanos.Mm.Vmm.{
  VmaRegion, Regions, AddressSpace, free_slot, overlaps, find, find_in, covers, region_for,
  page_down, pages_for, World, page_size, Mmu, pages_to_order,
}
use cyanos.Mm.Buddy
use cyanos.Mm.Vmm.Map.{place, map_lazy, put_region, map_vma, map_pages}

-- Two regions share no address.
abbrev pub Apart : VmaRegion → VmaRegion → Type 0
Apart r s = (r.end ≤ s.start) ⊎ (s.end ≤ r.start)

abbrev pub ApartFrom : VmaRegion → Regions → Type 0
ApartFrom r [] = Unit
ApartFrom r (none ∷ rs) = ApartFrom r rs
ApartFrom r (some s ∷ rs) = Apart r s × ApartFrom r rs

abbrev pub IsDisjoint : Regions → Type 0
IsDisjoint [] = Unit
IsDisjoint (none ∷ rs) = IsDisjoint rs
IsDisjoint (some r ∷ rs) = ApartFrom r rs × IsDisjoint rs

overlaps-ApartFrom :
    (r : VmaRegion) (rs : Regions) → overlaps r.start r.end rs ≡ false → ApartFrom r rs
unfolding overlaps
overlaps-ApartFrom r [] e = tt
overlaps-ApartFrom r (none ∷ rs) e = overlaps-ApartFrom r rs e
overlaps-ApartFrom r (some s ∷ rs) e = (apart s rs e, overlaps-ApartFrom r rs (rest s rs e))
  where
    apart :
        (s : VmaRegion) (rs : Regions)
        → ((ltb r.start s.end && ltb s.start r.end) || overlaps r.start r.end rs) ≡ false
        → Apart r s
    apart s rs e = ground arith

    rest :
        (s : VmaRegion) (rs : Regions)
        → ((ltb r.start s.end && ltb s.start r.end) || overlaps r.start r.end rs) ≡ false
        → overlaps r.start r.end rs ≡ false
    rest s rs e = ground arith

pub Apart-sym : (r s : VmaRegion) → Apart r s → Apart s r
Apart-sym r s h = ground arith

pub ApartFrom-set :
    (q r : VmaRegion) (rs : Regions) (i : ℕ)
    → ApartFrom q rs
    → Apart q r
    → ApartFrom q (set rs i (some r))
ApartFrom-set q r [] i h a = tt
ApartFrom-set q r (none ∷ rs) zero h a = (a, h)
ApartFrom-set q r (some s ∷ rs) zero h a = (a, h.1)
ApartFrom-set q r (none ∷ rs) (suc i) h a = ApartFrom-set q r rs i h a
ApartFrom-set q r (some s ∷ rs) (suc i) h a = (h.0, ApartFrom-set q r rs i h.1 a)

IsDisjoint-set :
    (r : VmaRegion) (rs : Regions) (i : ℕ)
    → IsDisjoint rs
    → ApartFrom r rs
    → IsDisjoint (set rs i (some r))
IsDisjoint-set r [] i h a = tt
IsDisjoint-set r (none ∷ rs) zero h a = (a, h)
IsDisjoint-set r (some s ∷ rs) zero h a = (a.1, h.1)
IsDisjoint-set r (none ∷ rs) (suc i) h a = IsDisjoint-set r rs i h a
IsDisjoint-set r (some s ∷ rs) (suc i) h a =
    (ApartFrom-set s r rs i h.0 (Apart-sym r s a.0), IsDisjoint-set r rs i h.1 a.1)

find_in-overlaps :
    (va start end : ℕ) (rs : Regions)
    → overlaps start end rs ≡ false
    → start ≤ va
    → va < end
    → find_in va rs ≡ none
unfolding overlaps find_in
find_in-overlaps va start end [] e lo hi = refl
find_in-overlaps va start end (none ∷ rs) e lo hi = find_in-overlaps va start end rs e lo hi
find_in-overlaps va start end (some r ∷ rs) e lo hi =
    ground (arith, find_in-overlaps va start end rs)

find_in-set :
    (va : ℕ) (r : VmaRegion) (rs : Regions) (i : ℕ)
    → free_slot rs ≡ some i
    → overlaps r.start r.end rs ≡ false
    → find_in va (set rs i (some r)) ≡ (if covers va r then some r else find_in va rs)
unfolding free_slot overlaps find_in
find_in-set va r [] i e apart = absurd (cc)
find_in-set va r (none ∷ rs) zero e apart = refl
find_in-set va r (none ∷ rs) (suc i) e apart = absurd (ground arith)
find_in-set va r (some s ∷ rs) zero e apart = absurd (ground arith)
find_in-set va r (some s ∷ rs) (suc i) e apart = elim (Option-cases (free_slot rs)) [
  | inl full ↦ absurd (ground arith)
  | inr (j, room) ↦ ground (arith, find_in-set va r rs i)
]

abbrev Placed : ℕ → ℕ → AddressSpace → ℕ × ℕ × ℕ → Type 0
Placed virt size as_ (slot, start, end) =
    (free_slot as_.regions ≡ some slot)
    × (start ≡ page_down virt)
    × (end ≡ page_down virt + pages_for size * page_size)
    × (overlaps start end as_.regions ≡ false)

place_lem :
    (virt size : ℕ) (as_ : AddressSpace) (p : ℕ × ℕ × ℕ)
    → place virt size as_ ≡ some p
    → Placed virt size as_ p
unfolding place
place_lem virt size as_ (slot, start, end) e = ground arith

-- The region that `map_lazy` records.
abbrev lazy_region : ℕ → ℕ → ℕ → VmaRegion
lazy_region virt size flags =
    region_for (page_down virt) (page_down virt + pages_for size * page_size) 0 flags true

-- After a `map_lazy` that succeeds, `find` returns the new region at each address in it, and at
-- every other address what it returned before.
find-map_lazy :
    (virt size flags va : ℕ) (as_ : AddressSpace)
    → (map_lazy virt size flags as_).0 ≡ true
    → find va (map_lazy virt size flags as_).1 ≡ (
        if covers va (lazy_region virt size flags)
        then some (lazy_region virt size flags)
        else find va as_)
unfolding map_lazy find
find-map_lazy virt size flags va as_ e = elim (Option-cases (place virt size as_)) [
  | inl refused ↦ absurd (ground arith)
  | inr ((slot, start, end), placed) ↦
      let (room, low, high, apart) = place_lem virt size as_ (slot, start, end) placed in
      rw (placed, map_lazy, sym high, sym low)
        (find_in-set va (region_for start end 0 flags true) as_.regions slot room apart)
]

-- `map_lazy` keeps the regions of an address space disjoint, whether it succeeds or not.
pub map_lazy-IsDisjoint :
    (virt size flags : ℕ) (as_ : AddressSpace)
    → IsDisjoint as_.regions
    → IsDisjoint (map_lazy virt size flags as_).1.regions
unfolding map_lazy
map_lazy-IsDisjoint virt size flags as_ h = elim (Option-cases (place virt size as_)) [
  | inl refused ↦ rw (refused, map_lazy) h
  | inr ((slot, start, end), placed) ↦
      let (room, low, high, apart) = place_lem virt size as_ (slot, start, end) placed in
      let r : VmaRegion = region_for start end 0 flags true in
      rw (placed, map_lazy)
        (IsDisjoint-set r as_.regions slot h (overlaps-ApartFrom r as_.regions apart))
]

module _ (mmu : Mmu) where
  -- The region that a `map` at this place records.
  abbrev eager_region : ℕ → ℕ → ℕ → ℕ → VmaRegion
  eager_region virt size flags phys =
      region_for (page_down virt) (page_down virt + pages_for size * page_size) phys flags false

  -- What an operation on the world leaves of the regions: the old ones, or a new one at the place.
  abbrev MapsAt : ℕ → ℕ → ℕ → AddressSpace → ℕ → AddressSpace → Type 0
  MapsAt virt size flags as_ slot as_' =
      (as_' ≡ as_) ⊎ ((phys : ℕ) × (as_' ≡ put_region slot (eager_region virt size flags phys) as_))

  map_vma_places :
      (virt size flags : ℕ) (as_ : AddressSpace) (w : World mmu)
      (r : Bool × AddressSpace × World mmu) (slot start end : ℕ)
      → place virt size as_ ≡ some (slot, start, end)
      → start ≡ page_down virt
      → map_vma mmu virt size flags as_ w ≡ some r
      → MapsAt virt size flags as_ slot r.1
  unfolding map_vma
  map_vma_places virt size flags as_ w r slot start end placed low e =
      elim (Option-cases (Buddy.alloc (pages_to_order (pages_for size)) w.pages)) [
        | inl panic ↦ absurd (ground arith)
        | inr ((none, b), ea) ↦ inl (ground arith)
        | inr ((some phys, b), ea) ↦
            elim (Bool-cases
              (map_pages mmu as_.page_table_root start phys flags (pages_for size) 0 w.tables).0) [
                | inl done ↦ inr (phys, ground (arith))
                | inr failed ↦ inl (ground arith)
              ]
      ]

  -- `map` keeps the regions of an address space disjoint, also when the allocator has no block or
  -- the pages cannot be mapped.
  pub map_vma-IsDisjoint :
      (virt size flags : ℕ) (as_ : AddressSpace) (w : World mmu)
      (r : Bool × AddressSpace × World mmu)
      → map_vma mmu virt size flags as_ w ≡ some r
      → IsDisjoint as_.regions
      → IsDisjoint r.1.regions
  unfolding map_vma
  map_vma-IsDisjoint virt size flags as_ w r e h = elim (Option-cases (place virt size as_)) [
    | inl refused ↦ let same : as_ ≡ r.1 = ground arith in subst (λ a. IsDisjoint a.regions) same h
    | inr ((slot, start, end), placed) ↦
        let (room, low, high, apart) = place_lem virt size as_ (slot, start, end) placed in
        elim (map_vma_places virt size flags as_ w r slot start end placed low e) [
          | inl same ↦ subst (λ a. IsDisjoint a.regions) (sym same) h
          | inr (phys, new) ↦
              let q : VmaRegion = eager_region virt size flags phys in
              let apart' : overlaps q.start q.end as_.regions ≡ false =
                ap₂ (λ a b. overlaps a b as_.regions) (sym low) (sym high) ∙ apart in
              subst (λ a. IsDisjoint a.regions) (sym new)
                (IsDisjoint-set q as_.regions slot h (overlaps-ApartFrom q as_.regions apart'))
        ]
  ]

  -- `map` leaves the regions as they were, or adds one with the flags that it was given.
  pub map_vma_adds :
      (virt size flags : ℕ) (as_ : AddressSpace) (w : World mmu)
      (r : Bool × AddressSpace × World mmu)
      → map_vma mmu virt size flags as_ w ≡ some r
      → (r.1.regions ≡ as_.regions)
        ⊎ ((slot : ℕ) × (q : VmaRegion) × (q.flags ≡ flags)
            × (r.1.regions ≡ set as_.regions slot (some q)))
  unfolding map_vma
  map_vma_adds virt size flags as_ w r e = elim (Option-cases (place virt size as_)) [
    | inl refused ↦ let same : as_ ≡ r.1 = ground arith in inl (ap (λ a. a.regions) (sym same))
    | inr ((slot, start, end), placed) ↦
        let (room, low, high, apart) = place_lem virt size as_ (slot, start, end) placed in
        elim (map_vma_places virt size flags as_ w r slot start end placed low e) [
          | inl same ↦ inl (ap (λ a. a.regions) same)
          | inr (phys, new) ↦
              inr (slot, eager_region virt size flags phys, refl, ap (λ a. a.regions) new)
        ]
  ]
