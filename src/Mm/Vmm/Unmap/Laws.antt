-- ===== src/Mm/Vmm/Unmap/Laws.antt =====
-- What `unmap_range` of mm/src/vmm.rs leaves of the regions.
use cyanos.Base.{
  ℕ, zero, suc, ◌+◌, ◌-◌, ◌*◌, ◌≤◌, ◌≡◌, ◌⊎◌, inl, inr, Option, none, some, arith, ◌==◌, Bool-cases,
  Option-cases, set, [], ◌∷◌,
}
use cyanos.Mm.Buddy
use cyanos.Mm.Buddy.{Buddy, page_size}
use cyanos.Mm.Vmm.{World, VmaRegion, Regions, Mmu}
use cyanos.Mm.Vmm.Fault.{page_at}
use cyanos.Mm.Vmm.Unmap.{release_pages}

-- What is left of the region `r` lies in it and outside `[virt, end)`.
abbrev Left : ℕ → ℕ → VmaRegion → Option VmaRegion → Type 0
Left virt end r none = Unit
Left virt end r (some q) =
    ((q.end ≤ virt) ⊎ (end ≤ q.start)) × (r.start ≤ q.start) × (q.end ≤ r.end)

module _ (mmu : Mmu) where
  pub release_pages_keeps :
      (root n i : ℕ) (r : VmaRegion) (w : World mmu) (r' : VmaRegion) (w' : World mmu)
      → release_pages mmu root n i r w ≡ some (r', w')
      → (r'.start ≡ r.start) × (r'.end ≡ r.end)
  unfolding release_pages
  release_pages_keeps root zero i r w r' w' e = ground arith
  release_pages_keeps root (suc n) i r w r' w' e = elim (Bool-cases (page_at r i == 0)) [
    | inl unbacked ↦
        release_pages_keeps root n (i + 1) r w r' w' (rw (unbacked, release_pages) at e)
    | inr backed ↦ elim (Option-cases (Buddy.free (page_at r i) 0 w.pages)) [
      | inl panic ↦ absurd (ground arith)
      | inr (b, freed) ↦
          release_pages_keeps root n (i + 1)
            (record r { lazy_pages = set r.lazy_pages i 0; lazy_count = r.lazy_count - 1 })
            (record w {
              pages = b;
              tables = mmu.unmap_page root (r.start + i * page_size) w.tables;
            })
            r' w' (rw (backed, freed, release_pages) at e)
    ]
  ]

  -- What the slots keep, slot by slot.
  Kept : ℕ → ℕ → Regions → Regions → Type 0
  Kept virt end [] rs' = rs' ≡ []
  Kept virt end (none ∷ rs) [] = ⊥
  Kept virt end (none ∷ rs) (slot ∷ rs') = (slot ≡ none) × Kept virt end rs rs'
  Kept virt end (some r ∷ rs) [] = ⊥
  Kept virt end (some r ∷ rs) (slot ∷ rs') = Left virt end r slot × Kept virt end rs rs'
