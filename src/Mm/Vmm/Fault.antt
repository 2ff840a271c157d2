-- ===== src/Mm/Vmm/Fault.antt =====
-- `handle_user_page_fault` and `prefault_range` of mm/src/vmm.rs: demand paging.
pub mod Laws
use cyanos.Mm.Buddy.{page_size}
use cyanos.Base.{
  ℕ, zero, suc, ◌+◌, ◌-◌, ◌/◌, Bool, true, false, not, Option, none, some, List, [], ◌∷◌, ltb, ◌==◌,
  if◌then◌else◌, get_or, set, replicate, add64,
}
use cyanos.Mm.Buddy
use cyanos.Mm.Vmm.{
  World, AddressSpace, VmaRegion, Regions, find, virt_to_phys, covers, page_down, zero_bytes, Mmu,
}

-- `region.lazy_pages.get(page_idx).copied().unwrap_or(0)`.
abbrev pub page_at : VmaRegion → ℕ → ℕ
page_at r page_idx = get_or r.lazy_pages page_idx 0

-- `resize(page_idx + 1, 0)` if the vector is shorter.
unfoldable pub grow : ℕ → List ℕ → List ℕ
grow n [] = replicate n 0
grow zero (p ∷ pages) = p ∷ pages
grow (suc n) (p ∷ pages) = p ∷ grow n pages

-- What is written to the region when a page is backed.
unfoldable pub back_page : ℕ → ℕ → VmaRegion → VmaRegion
unfolding grow
back_page page_idx phys r = record r {
  lazy_pages = set (grow (page_idx + 1) r.lazy_pages) page_idx phys;
  lazy_count = r.lazy_count + 1;
}

-- The region that `find` returned is the one that is changed.
unfoldable pub change_first : ℕ → (VmaRegion → VmaRegion) → Regions → Regions
change_first va f [] = []
change_first va f (none ∷ rs) = none ∷ change_first va f rs
change_first va f (some r ∷ rs) =
    if covers va r then some (f r) ∷ rs else some r ∷ change_first va f rs

module _ (mmu : Mmu) where
  -- A page for page `page_idx` of a lazy region: allocated, zeroed, mapped and recorded. The outer
  -- `none` is a panic of the page allocator.
  unfoldable pub demand_page :
      ℕ → ℕ → VmaRegion → AddressSpace → World mmu → Option (Bool × AddressSpace × World mmu)
  demand_page fault_va page_idx r as_ w = elim (Buddy.alloc 0 w.pages) [
    | none ↦ none
    | some (none, b) ↦ some (false, as_, record w { pages = b })
    | some (some phys, b) ↦
        let (mapped, t) =
          mmu.map_page as_.page_table_root (page_down fault_va) phys r.flags w.tables in
        let w' : World mmu = record w {
          pages = b;
          tables = t;
          memory = zero_bytes (add64 phys w.hhdm_offset) page_size w.memory;
        } in
        if mapped
        then some (
          true,
          record as_ { regions = change_first fault_va (back_page page_idx phys) as_.regions },
          w',
        )
        else elim (Buddy.free phys 0 b) [
          | none ↦ none
          | some b' ↦ some (false, as_, record w' { pages = b' })
        ]
  ]

  -- `page_va - region.start` of an address in the region; a region that does not start on a page
  -- boundary makes the source's subtraction overflow for its first page, which is the outer `none`.
  unfoldable pub handle_user_page_fault :
      ℕ → AddressSpace → World mmu → Option (Bool × AddressSpace × World mmu)
  unfolding demand_page
  handle_user_page_fault fault_va as_ w = elim (find fault_va as_) [
    | none ↦ some (false, as_, w)
    | some r ↦
        if not r.lazy
        then some (false, as_, w)
        else if ltb (page_down fault_va) r.start
        then none
        else let page_idx = (page_down fault_va - r.start) / page_size in
          if not (page_at r page_idx == 0)
          then some (false, as_, w)
          else demand_page fault_va page_idx r as_ w
  ]

  -- The loop of `prefault_range` over `n` pages from `va` on.
  unfoldable prefault_pages : ℕ → ℕ → AddressSpace → World mmu → Option (AddressSpace × World mmu)
  unfolding virt_to_phys
  prefault_pages zero va as_ w = some (as_, w)
  prefault_pages (suc n) va as_ w = elim (virt_to_phys va as_) [
    | some p ↦ prefault_pages n (va + page_size) as_ w
    | none ↦ elim (handle_user_page_fault va as_ w) [
      | none ↦ none
      | some (handled, as_', w') ↦ prefault_pages n (va + page_size) as_' w'
    ]
  ]

  -- `while va < page_end`, which runs once for each page of the range.
  unfoldable prefault_range : ℕ → ℕ → AddressSpace → World mmu → Option (AddressSpace × World mmu)
  unfolding prefault_pages
  prefault_range addr len as_ w =
      if len == 0
      then some (as_, w)
      else prefault_pages ((page_down (add64 (add64 addr len) 4095) - page_down addr) / page_size)
          (page_down addr) as_ w
