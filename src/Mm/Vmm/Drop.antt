-- ===== src/Mm/Vmm/Drop.antt =====
-- `Drop` of AddressSpace in mm/src/vmm.rs: the pages go back to the page allocator.
use cyanos.Base.{ℕ, ◌-◌, ◌/◌, true, false, Option, none, some, List, [], ◌∷◌, ◌==◌, if◌then◌else◌}
use cyanos.Mm.Buddy
use cyanos.Mm.Buddy.{Buddy, page_size}
use cyanos.Mm.Mmu.{Mmu}
use cyanos.Mm.Vmm.{World, AddressSpace, VmaRegion, Regions, pages_to_order}

-- The loop over `lazy_pages`; `none` is a panic of the page allocator.
unfoldable pub free_pages : List ℕ → Buddy → Option Buddy
free_pages [] b = some b
free_pages (phys ∷ pages) b = elim (phys == 0) [
  | true ↦ free_pages pages b
  | false ↦ elim (Buddy.free phys 0 b) [ none ↦ none | some b' ↦ free_pages pages b' ]
]

unfoldable pub free_region : VmaRegion → Buddy → Option Buddy
unfolding free_pages pages_to_order
free_region r b =
    if r.lazy
    then free_pages r.lazy_pages b
    else if r.phys == 0
    then some b
    else Buddy.free r.phys (pages_to_order ((r.end - r.start) / page_size)) b

unfoldable free_regions : Regions → Buddy → Option Buddy
free_regions [] b = some b
free_regions (none ∷ rs) b = free_regions rs b
free_regions (some r ∷ rs) b = elim (free_region r b) [ none ↦ none | some b' ↦ free_regions rs b' ]

unfoldable pub drop_space : (mmu : Mmu) → AddressSpace → World mmu → Option (World mmu)
unfolding free_regions
drop_space mmu as_ w = elim (free_regions as_.regions w.pages) [
  | none ↦ none
  | some b ↦
      elim (if as_.page_table_root == 0 then some b else Buddy.free as_.page_table_root 0 b) [
        | none ↦ none
        | some b' ↦ some (record w { pages = b'; tables = mmu.tlb_shootdown_all w.tables })
      ]
]
