-- ===== src/Mm/Vmm/Map.antt =====
-- `map` and `map_lazy` of mm/src/vmm.rs.
pub mod Disjoint
use cyanos.Base.{
  ℕ, zero, suc, ◌+◌, ◌*◌, Bool, true, false, Option, none, some, ◌==◌, if◌then◌else◌, set, add64,
}
use cyanos.Mm.Buddy
use cyanos.Mm.Buddy.{Buddy, page_size}
use cyanos.Mm.Mmu.{Mmu}
use cyanos.Mm.Vmm.{
  AddressSpace, VmaRegion, World, Regions, page_down, pages_for, checked_add, pages_to_order,
  free_slot, overlaps, region_for, zero_bytes,
}

abbrev pub put_region : ℕ → VmaRegion → AddressSpace → AddressSpace
put_region slot r as_ = record as_ { regions = set as_.regions slot (some r) }

-- Where a mapping goes: the slot, the first address and the end; `none` if it is refused.
unfoldable pub place : ℕ → ℕ → AddressSpace → Option (ℕ × ℕ × ℕ)
place virt size as_ = if size == 0 then none else elim (free_slot as_.regions) [
  | none ↦ none
  | some slot ↦ elim (checked_add (page_down virt) (pages_for size * page_size)) [
    | none ↦ none
    | some end ↦
        if overlaps (page_down virt) end as_.regions then none else some (slot, page_down virt, end)
  ]
]

unfoldable pub map_lazy : ℕ → ℕ → ℕ → AddressSpace → Bool × AddressSpace
map_lazy virt size flags as_ = elim (place virt size as_) [
  | none ↦ (false, as_)
  | some (slot, start, end) ↦ (true, put_region slot (region_for start end 0 flags true) as_)
]

module _ (mmu : Mmu) where
  -- `for j in 0..i { unmap_page(...) }`: the `n` pages from `virt` on.
  unfoldable pub unmap_pages : ℕ → ℕ → ℕ → mmu.Tables → mmu.Tables
  unmap_pages root zero virt t = t
  unmap_pages root (suc n) virt t =
      unmap_pages root n (virt + page_size) (mmu.unmap_page root virt t)

  -- The loop that maps `n` pages from page `i` on; when one fails, the `i` pages before it are
  -- unmapped again.
  unfoldable pub map_pages : ℕ → ℕ → ℕ → ℕ → ℕ → ℕ → mmu.Tables → Bool × mmu.Tables
  map_pages root virt phys flags zero i t = (true, t)
  map_pages root virt phys flags (suc n) i t =
      let (done, t') = mmu.map_page root (virt + i * page_size) (phys + i * page_size) flags t in
      let rest = map_pages root virt phys flags n (i + 1) t' in
      if done then rest else (false, unmap_pages root i virt t')

  -- The outer `none` is a panic of the page allocator.
  unfoldable pub map_vma :
      ℕ → ℕ → ℕ → AddressSpace → World mmu → Option (Bool × AddressSpace × World mmu)
  map_vma virt size flags as_ w = elim (place virt size as_) [
    | none ↦ some (false, as_, w)
    | some (slot, start, end) ↦ elim (Buddy.alloc (pages_to_order (pages_for size)) w.pages) [
      | none ↦ none
      | some (none, b) ↦ some (false, as_, record w { pages = b })
      | some (some phys, b) ↦
          let (done, t) =
            map_pages as_.page_table_root start phys flags (pages_for size) 0 w.tables in
          let w' : World mmu = record w {
            pages = b;
            tables = t;
            memory = zero_bytes (add64 phys w.hhdm_offset) (pages_for size * page_size) w.memory;
          } in
          if done
          then some (
            true,
            put_region slot (region_for start (start + pages_for size * page_size) phys flags false)
                as_,
            w',
          )
          else elim (Buddy.free phys (pages_to_order (pages_for size)) b) [
            | none ↦ none
            | some b' ↦ some (false, as_, record w' { pages = b' })
          ]
    ]
  ]
