-- ===== src/Mm/Vmm/Break/Laws.antt =====
-- The break of mm/src/vmm.rs.
use cyanos.Base.{
  ℕ, zero, suc, ◌<◌, ◌≡◌, subst, inl, inr, none, some, [], ◌∷◌, arith, ◌==◌, Bool-cases,
  Option-cases, set, ◌+◌, ◌-◌, ◌/◌, ◌≤◌, min, false, leb, length, sub64, ◌||◌, ltb,
}
use cyanos.Mm.Mmu.{Mmu}
use cyanos.Mm.Vmm.{World, AddressSpace, VmaRegion, Regions, overlaps, page_size}
use cyanos.Mm.Vmm.Map.{map_lazy}
use cyanos.Mm.Vmm.Map.Disjoint.{
  IsDisjoint, ApartFrom, Apart, map_lazy-IsDisjoint, ApartFrom-set, Apart-sym,
}
use cyanos.Mm.Vmm.Unmap.{release_pages}
use cyanos.Mm.Vmm.Unmap.Laws.{release_pages_keeps}
use cyanos.Mm.Vmm.Break.{
  heap_at, blocked, first_brk, grow_heap, shrink_heap, brk, page_up, heap_flags,
}

-- Every region has an address.
abbrev IsSized : Regions → Type 0
IsSized [] = Unit
IsSized (none ∷ rs) = IsSized rs
IsSized (some r ∷ rs) = (r.start < r.end) × IsSized rs

-- A region with another end that still lies apart from what `r` lies apart from.
Replaces : VmaRegion → VmaRegion → Regions → Type 0
Replaces r r' [] = Unit
Replaces r r' (none ∷ rs) = Replaces r r' rs
Replaces r r' (some q ∷ rs) = (Apart r q → Apart r' q) × Replaces r r' rs

heap_at-ApartFrom :
    (start i : ℕ) (q r : VmaRegion) (rs : Regions)
    → heap_at start rs ≡ some (i, r)
    → ApartFrom q rs
    → Apart q r
unfolding heap_at
heap_at-ApartFrom start i q r [] e a = absurd (cc)
heap_at-ApartFrom start i q r (none ∷ rs) e a = elim (Option-cases (heap_at start rs)) [
  | inl missing ↦ absurd (ground arith)
  | inr ((j, s), found) ↦ heap_at-ApartFrom start j q r rs (ground arith) a
]
heap_at-ApartFrom start i q r (some s ∷ rs) e a = elim (Bool-cases (s.start == start)) [
  | inl here ↦ let same : s ≡ r = ground arith in subst (λ x. Apart q x) same a.0
  | inr later ↦ elim (Option-cases (heap_at start rs)) [
    | inl missing ↦ absurd (ground arith)
    | inr ((j, t), found) ↦ heap_at-ApartFrom start j q r rs (ground arith) a.1
  ]
]

ApartFrom-replace :
    (r r' : VmaRegion) (rs : Regions) → Replaces r r' rs → ApartFrom r rs → ApartFrom r' rs
unfolding Replaces
ApartFrom-replace r r' [] h a = tt
ApartFrom-replace r r' (none ∷ rs) h a = ApartFrom-replace r r' rs h a
ApartFrom-replace r r' (some q ∷ rs) h a = (h.0 a.0, ApartFrom-replace r r' rs h.1 a.1)

IsDisjoint-replace :
    (start i : ℕ) (r r' : VmaRegion) (rs : Regions)
    → heap_at start rs ≡ some (i, r)
    → Replaces r r' (set rs i none)
    → IsDisjoint rs
    → IsDisjoint (set rs i (some r'))
unfolding heap_at Replaces
IsDisjoint-replace start i r r' [] e h d = tt
IsDisjoint-replace start zero r r' (none ∷ rs) e h d = absurd (ground arith)
IsDisjoint-replace start (suc i) r r' (none ∷ rs) e h d = elim (Option-cases (heap_at start rs)) [
  | inl missing ↦ absurd (ground arith)
  | inr ((j, s), found) ↦ IsDisjoint-replace start i r r' rs (ground arith) h d
]
IsDisjoint-replace start zero r r' (some s ∷ rs) e h d =
    let same : s ≡ r = ground arith in
    (ApartFrom-replace r r' rs h (subst (λ x. ApartFrom x rs) same d.0), d.1)
IsDisjoint-replace start (suc i) r r' (some s ∷ rs) e h d = elim (Bool-cases (s.start == start)) [
  | inl here ↦ absurd (ground arith)
  | inr later ↦
      let found : heap_at start rs ≡ some (i, r) = ground arith in
      let apart = heap_at-ApartFrom start i s r rs found d.0 in
      (
        ApartFrom-set s r' rs i d.0 (Apart-sym r' s (h.0 (Apart-sym s r apart))),
        IsDisjoint-replace start i r r' rs found h.1 d.1,
      )
]

grow-Replaces :
    (new_end : ℕ) (r : VmaRegion) (rs : Regions)
    → IsSized rs
    → r.end < new_end
    → overlaps r.end new_end rs ≡ false
    → Replaces r (record r { end = new_end }) rs
unfolding Replaces overlaps
grow-Replaces new_end r [] z h o = tt
grow-Replaces new_end r (none ∷ rs) z h o = grow-Replaces new_end r rs z h o
grow-Replaces new_end r (some q ∷ rs) z h o =
    ((λ a. ground arith), grow-Replaces new_end r rs z.1 h (ground arith))

shrink-Replaces :
    (r r' : VmaRegion) (rs : Regions) → r'.start ≡ r.start → r'.end ≤ r.end → Replaces r r' rs
unfolding Replaces
shrink-Replaces r r' [] s h = tt
shrink-Replaces r r' (none ∷ rs) s h = shrink-Replaces r r' rs s h
shrink-Replaces r r' (some q ∷ rs) s h = ((λ a. ground arith), shrink-Replaces r r' rs s h)

IsSized-set : (rs : Regions) (i : ℕ) → IsSized rs → IsSized (set rs i none)
IsSized-set [] i z = tt
IsSized-set (none ∷ rs) zero z = z
IsSized-set (some r ∷ rs) zero z = z.1
IsSized-set (none ∷ rs) (suc i) z = IsSized-set rs i z
IsSized-set (some r ∷ rs) (suc i) z = (z.0, IsSized-set rs i z.1)

first_brk-IsDisjoint :
    (new_end : ℕ) (as_ : AddressSpace)
    → IsDisjoint as_.regions
    → IsDisjoint (first_brk new_end as_).1.regions
unfolding first_brk
first_brk-IsDisjoint new_end as_ d =
    let mapped = map_lazy-IsDisjoint as_.heap_start (new_end - as_.heap_start) heap_flags as_ d in
    elim (Bool-cases (leb new_end as_.heap_start)) [
      | inl below ↦ rw (below, first_brk) d
      | inr above ↦
          elim (Bool-cases (map_lazy as_.heap_start (new_end - as_.heap_start) heap_flags as_).0) [
            | inl done ↦ rw (above, done, first_brk) mapped
            | inr refused ↦ rw (above, refused, first_brk) mapped
          ]
    ]

module _ (mmu : Mmu) where
  grow_heap-IsDisjoint :
      (new_end idx : ℕ) (r : VmaRegion) (as_ : AddressSpace) (w : World mmu)
      → heap_at as_.heap_start as_.regions ≡ some (idx, r)
      → IsSized as_.regions
      → IsDisjoint as_.regions
      → r.end < new_end
      → IsDisjoint (grow_heap mmu new_end idx r as_ w).1.regions
  unfolding grow_heap blocked
  grow_heap-IsDisjoint new_end idx r as_ w found z d h =
      elim (Bool-cases (overlaps r.end new_end (set as_.regions idx none))) [
        | inl full ↦ rw (full, grow_heap) d
        | inr room ↦
            rw (room, grow_heap)
              (IsDisjoint-replace as_.heap_start idx r (record r { end = new_end }) as_.regions
                found
                (grow-Replaces new_end r (set as_.regions idx none) (IsSized-set as_.regions idx z)
                  h room)
                d)
      ]

  shrink_heap-IsDisjoint :
      (new_end idx : ℕ) (r : VmaRegion) (as_ : AddressSpace) (w : World mmu) (b : ℕ)
      (as_' : AddressSpace) (w' : World mmu)
      → heap_at as_.heap_start as_.regions ≡ some (idx, r)
      → IsDisjoint as_.regions
      → new_end ≤ r.end
      → shrink_heap mmu new_end idx r as_ w ≡ some (b, as_', w')
      → IsDisjoint as_'.regions
  unfolding shrink_heap
  shrink_heap-IsDisjoint new_end idx r as_ w b as_' w' found d h e =
      let first_idx = sub64 new_end r.start / page_size in
      let last_idx = (r.end - r.start + 4095) / page_size in
      let n = min last_idx (length r.lazy_pages) - first_idx in
      elim (Option-cases
        (release_pages mmu as_.page_table_root n first_idx (record r { end = new_end }) w)) [
          | inl panic ↦ absurd (ground arith)
          | inr ((r', w1), released) ↦
              let (es, ee) =
                release_pages_keeps mmu as_.page_table_root n first_idx (record r { end = new_end })
                  w r' w1 released in
              let same : set as_.regions idx (some r') ≡ as_'.regions = ground arith in
              subst IsDisjoint same (
                IsDisjoint-replace as_.heap_start idx r r' as_.regions found
                  (shrink-Replaces r r' (set as_.regions idx none) es (rw (ee) h)) d)
        ]

  -- `brk` keeps the regions disjoint, in a space whose regions each have an address: a heap that
  -- grows never runs into another region.
  pub brk-IsDisjoint :
      (new_end : ℕ) (as_ : AddressSpace) (w : World mmu) (b : ℕ) (as_' : AddressSpace)
      (w' : World mmu)
      → IsSized as_.regions
      → IsDisjoint as_.regions
      → brk mmu new_end as_ w ≡ some (b, as_', w')
      → IsDisjoint as_'.regions
  unfolding brk
  brk-IsDisjoint new_end as_ w b as_' w' z d e =
      elim (Bool-cases ((new_end == 0) || (as_.heap_start == 0))) [
        | inl query ↦
            let same : as_ ≡ as_' = ground arith in subst (λ a. IsDisjoint a.regions) same d
        | inr move ↦ elim (Option-cases (heap_at as_.heap_start as_.regions)) [
          | inl missing ↦
              let same : (first_brk (page_up new_end) as_).1 ≡ as_' = ground arith in
              subst (λ a. IsDisjoint a.regions) same (first_brk-IsDisjoint (page_up new_end) as_ d)
          | inr ((idx, r), found) ↦ elim (Bool-cases (page_up new_end == r.end)) [
            | inl stay ↦
                let same : as_ ≡ as_' = ground arith in subst (λ a. IsDisjoint a.regions) same d
            | inr other ↦ elim (Bool-cases (ltb r.end (page_up new_end))) [
              | inl up ↦
                  let same : (grow_heap mmu (page_up new_end) idx r as_ w).1 ≡ as_' =
                    ground arith in
                  subst (λ a. IsDisjoint a.regions) same
                    (grow_heap-IsDisjoint (page_up new_end) idx r as_ w found z d (ground arith))
              | inr down ↦
                  shrink_heap-IsDisjoint (page_up new_end) idx r as_ w b as_' w' found d
                    (ground arith) (ground arith)
            ]
          ]
        ]
      ]
