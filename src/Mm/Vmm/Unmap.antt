-- ===== src/Mm/Vmm/Unmap.antt =====
-- `unmap_range` of mm/src/vmm.rs.
pub mod Laws
use cyanos.Mm.Buddy.{page_size}
use cyanos.Base.{
  ℕ, zero, suc, ◌+◌, ◌-◌, ◌*◌, ◌/◌, min, Bool, true, false, not, ◌&&◌, Option, none, some, [], ◌∷◌,
  ltb, ◌==◌, if◌then◌else◌, length, set, drop, add64,
}
use cyanos.Mm.Buddy
use cyanos.Mm.Vmm.{
  World, AddressSpace, VmaRegion, Regions, page_down, checked_add, pages_to_order, Mmu,
}
use cyanos.Mm.Vmm.Map.{unmap_pages}
use cyanos.Mm.Vmm.Fault.{page_at}

abbrev pub max : ℕ → ℕ → ℕ
max a b = if ltb a b then b else a

-- `virt.max(r_start)` and `end.min(r_end)`.
abbrev pub clip_start : ℕ → VmaRegion → ℕ
clip_start virt r = max virt r.start

abbrev pub clip_end : ℕ → VmaRegion → ℕ
clip_end end r = if ltb r.end end then r.end else end

-- `r.start < end && r.end > virt`.
abbrev pub meets : ℕ → ℕ → VmaRegion → Bool
meets virt end r = ltb r.start end && ltb virt r.end

module _ (mmu : Mmu) where
  -- The loop that gives back `n` pages of a lazy region, from page `i` on; `none` is a panic of the
  -- page allocator.
  unfoldable pub release_pages : ℕ → ℕ → ℕ → VmaRegion → World mmu → Option (VmaRegion × World mmu)
  release_pages root zero i r w = some (r, w)
  release_pages root (suc n) i r w = elim (page_at r i == 0) [
    | true ↦ release_pages root n (i + 1) r w
    | false ↦ elim (Buddy.free (page_at r i) 0 w.pages) [
      | none ↦ none
      | some b ↦
          release_pages root n (i + 1)
            (record r { lazy_pages = set r.lazy_pages i 0; lazy_count = r.lazy_count - 1 })
            (record w {
              pages = b;
              tables = mmu.unmap_page root (r.start + i * page_size) w.tables;
            })
    ]
  ]

  -- The pages of a region in `[clip_s, clip_e)`.
  unfoldable pub clear_range : ℕ → ℕ → ℕ → VmaRegion → World mmu → Option (VmaRegion × World mmu)
  unfolding release_pages unmap_pages
  clear_range root clip_s clip_e r w =
      if r.lazy
      then (let pg_first = (clip_s - r.start) / page_size in
          let pg_last = (clip_e - r.start + 4095) / page_size in
          release_pages root (min pg_last (length r.lazy_pages) - pg_first) pg_first r w)
      else some (
        r,
        record w { tables = unmap_pages mmu root ((clip_e - clip_s) / page_size) clip_s w.tables },
      )

  -- What is left of the region. `drain(0..shift)` or `clear()` is `drop shift`.
  unfoldable pub reshape : ℕ → ℕ → VmaRegion → World mmu → Option (Option VmaRegion × World mmu)
  unfolding pages_to_order
  reshape clip_s clip_e r w =
      if (clip_s == r.start) && (clip_e == r.end)
      then (if not r.lazy && not (r.phys == 0)
          then elim (Buddy.free r.phys (pages_to_order ((r.end - r.start) / page_size)) w.pages) [
            | none ↦ none
            | some b ↦ some (none, record w { pages = b })
          ]
          else some (none, w))
      else if clip_s == r.start
      then some (
        some (
            if r.lazy
            then record r {
              start = clip_e;
              lazy_pages = drop ((clip_e - r.start) / page_size) r.lazy_pages;
            }
            else if r.phys == 0
            then record r { start = clip_e }
            else record r { start = clip_e; phys = r.phys + (clip_e - r.start) }),
        w,
      )
      else some (some (record r { end = clip_s }), w)

  unfoldable pub unmap_region :
      ℕ → ℕ → ℕ → VmaRegion → World mmu → Option (Option VmaRegion × World mmu)
  unfolding clear_range reshape
  unmap_region root virt end r w =
      elim (clear_range root (clip_start virt r) (clip_end end r) r w) [
        | none ↦ none
        | some (r', w') ↦ reshape (clip_start virt r) (clip_end end r) r' w'
      ]

  -- `for slot in self.regions.iter_mut()`; the Boolean is `did_unmap`.
  unfoldable pub unmap_slots :
      ℕ → ℕ → ℕ → Regions → Bool → World mmu → Option (Regions × Bool × World mmu)
  unmap_slots root virt end [] did w = some ([], did, w)
  unmap_slots root virt end (none ∷ rs) did w = elim (unmap_slots root virt end rs did w) [
    | none ↦ none
    | some (rs', did', w') ↦ some (none ∷ rs', did', w')
  ]
  unmap_slots root virt end (some r ∷ rs) did w = elim (meets virt end r) [
    | false ↦ elim (unmap_slots root virt end rs did w) [
      | none ↦ none
      | some (rs', did', w') ↦ some (some r ∷ rs', did', w')
    ]
    | true ↦ elim (unmap_region root virt end r w) [
      | none ↦ none
      | some (slot, w1) ↦ elim (unmap_slots root virt end rs true w1) [
        | none ↦ none
        | some (rs', did', w') ↦ some (slot ∷ rs', did', w')
      ]
    ]
  ]

  unfoldable pub unmap_range : ℕ → ℕ → AddressSpace → World mmu → Option (AddressSpace × World mmu)
  unfolding unmap_slots
  unmap_range virt len as_ w =
      if len == 0
      then some (as_, w)
      else elim (checked_add (page_down virt) (page_down (add64 len 4095))) [
        | none ↦ some (as_, w)
        | some end ↦
            elim (unmap_slots as_.page_table_root (page_down virt) end as_.regions false w) [
              | none ↦ none
              | some (rs, did, w') ↦ some (
                record as_ { regions = rs },
                (if did then record w' { tables = mmu.tlb_shootdown_all w'.tables } else w'),
              )
            ]
      ]
