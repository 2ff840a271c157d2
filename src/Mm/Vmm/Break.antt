-- ===== src/Mm/Vmm/Break.antt =====
-- `brk` of mm/src/vmm.rs. Its result is the break that the caller is told.
pub mod Laws
use cyanos.Base.{
  ℕ, zero, suc, ◌+◌, ◌-◌, ◌/◌, min, Bool, ◌||◌, Option, none, some, [], ◌∷◌, ltb, leb, ◌==◌,
  if◌then◌else◌, length, set, add64, sub64,
}
use cyanos.Mm.Mmu.{flag_present, flag_writable, flag_user, Mmu}
use cyanos.Mm.Vmm.{World, AddressSpace, VmaRegion, Regions, page_down, overlaps, page_size}
use cyanos.Mm.Vmm.Map.{map_lazy, put_region}
use cyanos.Mm.Vmm.Unmap.{release_pages}

abbrev current_break : AddressSpace → ℕ
current_break as_ = if as_.heap_end == 0 then as_.heap_start else as_.heap_end

-- `position(|r| r.start == self.heap_start)`, with the region there.
unfoldable pub heap_at : ℕ → Regions → Option (ℕ × VmaRegion)
heap_at start [] = none
heap_at start (none ∷ rs) = elim (heap_at start rs) [ none ↦ none | some (i, q) ↦ some (suc i, q) ]
heap_at start (some r ∷ rs) =
    if r.start == start
    then some (0, r)
    else elim (heap_at start rs) [ none ↦ none | some (i, q) ↦ some (suc i, q) ]

-- `page_up(new_end)`.
abbrev pub page_up : ℕ → ℕ
page_up a = page_down (add64 a 4095)

-- Some region other than that of slot `idx` meets `[old_end, new_end)`.
unfoldable pub blocked : ℕ → ℕ → ℕ → Regions → Bool
unfolding overlaps
blocked idx old_end new_end rs = overlaps old_end new_end (set rs idx none)

abbrev pub heap_flags : ℕ
heap_flags = flag_present + flag_user + flag_writable

-- No heap region yet: one is made by the first call that raises the break.
unfoldable pub first_brk : ℕ → AddressSpace → ℕ × AddressSpace
unfolding map_lazy
first_brk new_end as_ =
    if leb new_end as_.heap_start
    then (current_break as_, as_)
    else (let (done, as_') = map_lazy as_.heap_start (new_end - as_.heap_start) heap_flags as_ in
        if done then (new_end, record as_' { heap_end = new_end }) else (current_break as_, as_'))

module _ (mmu : Mmu) where
  unfoldable pub grow_heap :
      ℕ → ℕ → VmaRegion → AddressSpace → World mmu → ℕ × AddressSpace × World mmu
  unfolding blocked
  grow_heap new_end idx r as_ w =
      if blocked idx r.end new_end as_.regions then (current_break as_, as_, w) else (
        new_end,
        record (put_region idx (record r { end = new_end }) as_) { heap_end = new_end },
        w,
      )

  -- The subtraction `new_end - heap_start` wraps, as it does without overflow checks. The `none` is a
  -- panic of the page allocator.
  unfoldable pub shrink_heap :
      ℕ → ℕ → VmaRegion → AddressSpace → World mmu → Option (ℕ × AddressSpace × World mmu)
  unfolding release_pages
  shrink_heap new_end idx r as_ w =
      let first_idx = sub64 new_end r.start / page_size in
      let last_idx = (r.end - r.start + 4095) / page_size in
      elim (release_pages mmu as_.page_table_root (min last_idx (length r.lazy_pages) - first_idx)
        first_idx (record r { end = new_end }) w) [
          | none ↦ none
          | some (r', w') ↦ some (
            new_end,
            record (put_region idx r' as_) { heap_end = new_end },
            record w' { tables = mmu.tlb_shootdown_all w'.tables },
          )
        ]

  unfoldable pub brk : ℕ → AddressSpace → World mmu → Option (ℕ × AddressSpace × World mmu)
  unfolding heap_at first_brk grow_heap shrink_heap
  brk new_end as_ w =
      if (new_end == 0) || (as_.heap_start == 0)
      then some (current_break as_, as_, w)
      else elim (heap_at as_.heap_start as_.regions) [
        | none ↦ (let (b, as_') = first_brk (page_up new_end) as_ in some (b, as_', w))
        | some (idx, r) ↦
            if page_up new_end == r.end
            then some (page_up new_end, as_, w)
            else if ltb r.end (page_up new_end)
            then some (grow_heap (page_up new_end) idx r as_ w)
            else shrink_heap (page_up new_end) idx r as_ w
      ]
