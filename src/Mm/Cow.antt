-- ===== src/Mm/Cow.antt =====
-- mm/src/cow.rs: the copy of an address space for `fork`.
pub mod Laws
use cyanos.Base.{
  ℕ, zero, suc, ◌+◌, ◌-◌, ◌*◌, ◌/◌, true, false, ◌&&◌, Option, none, some, List, [], ◌∷◌, ltb, leb,
  ◌==◌, if◌then◌else◌, set, add64, Bool, length, replicate,
}
use cyanos.Mm.Buddy
use cyanos.Mm.Buddy.{Buddy, page_size}
use cyanos.Mm.Mmu.{Mmu}
use cyanos.Mm.Vmm.{World, AddressSpace, VmaRegion, Regions, pages_to_order}
use cyanos.Mm.Vmm.Fault.{grow}
use cyanos.Mm.Vmm.Drop.{drop_space}

-- `copy_nonoverlapping(src, dst, len)` of bytes.
abbrev copy_bytes : ℕ → ℕ → ℕ → (ℕ → ℕ) → ℕ → ℕ
copy_bytes src dst len m a = if leb dst a && ltb a (dst + len) then m (src + (a - dst)) else m a

-- The region of the child before its pages are copied.
abbrev pub bare_copy : VmaRegion → VmaRegion
bare_copy r = record r { phys = 0; lazy_pages = []; lazy_count = 0 }

-- The growth of the tracking vector to cover index `i`, and the write there.
unfoldable pub record_page : ℕ → ℕ → VmaRegion → VmaRegion
unfolding grow
record_page i phys q = record q {
  lazy_pages = set (grow (i + 1) q.lazy_pages) i phys;
  lazy_count = q.lazy_count + 1;
}

module _ (mmu : Mmu) where
  abbrev pub copy_memory : ℕ → ℕ → ℕ → World mmu → ℕ → ℕ
  copy_memory src_phys dst_phys len w =
      copy_bytes (add64 src_phys w.hhdm_offset) (add64 dst_phys w.hhdm_offset) len w.memory

  -- The loop over `lazy_pages` of the parent, from index `i` on: whether it came to its end, and the
  -- child's region as far as it is built. `none` is a panic of the page allocator. The result of
  -- `map_page` is not looked at.
  unfoldable pub copy_pages :
      ℕ → VmaRegion → ℕ → List ℕ → VmaRegion → World mmu → Option (Bool × VmaRegion × World mmu)
  unfolding record_page
  copy_pages root r i [] q w = some (true, q, w)
  copy_pages root r i (src_phys ∷ pages) q w = elim (src_phys == 0) [
    | true ↦ copy_pages root r (i + 1) pages q w
    | false ↦ elim (Buddy.alloc 0 w.pages) [
      | none ↦ none
      | some (none, b) ↦ some (false, q, record w { pages = b })
      | some (some dst_phys, b) ↦
          copy_pages root r (i + 1) pages (record_page i dst_phys q) (record w {
            pages = b;
            memory = copy_memory src_phys dst_phys page_size w;
            tables = (mmu.map_page root (r.start + i * page_size) dst_phys r.flags w.tables).1;
          })
    ]
  ]

  -- `for i in 0..n_pages { map_page(...) }`, with `n` pages left from page `i` on.
  unfoldable map_all : ℕ → ℕ → ℕ → ℕ → ℕ → ℕ → mmu.Tables → mmu.Tables
  map_all root virt phys flags zero i t = t
  map_all root virt phys flags (suc n) i t =
      map_all root virt phys flags n (i + 1)
        (mmu.map_page root (virt + i * page_size) (phys + i * page_size) flags t).1

  unfoldable pub copy_block : ℕ → VmaRegion → World mmu → Option (Bool × VmaRegion × World mmu)
  unfolding map_all pages_to_order
  copy_block root r w =
      let n_pages = (r.end - r.start) / page_size in
      elim (Buddy.alloc (pages_to_order n_pages) w.pages) [
        | none ↦ none
        | some (none, b) ↦ some (false, bare_copy r, record w { pages = b })
        | some (some dst_phys, b) ↦ some (
          true,
          record (bare_copy r) { phys = dst_phys },
          record w {
            pages = b;
            memory = copy_memory r.phys dst_phys (n_pages * page_size) w;
            tables = map_all root r.start dst_phys r.flags n_pages 0 w.tables;
          },
        )
      ]

  unfoldable pub copy_region : ℕ → VmaRegion → World mmu → Option (Bool × VmaRegion × World mmu)
  unfolding copy_pages copy_block
  copy_region root r w =
      if r.lazy
      then copy_pages root r 0 r.lazy_pages (bare_copy r) w
      else if r.phys == 0
      then some (true, bare_copy r, w)
      else copy_block root r w

  -- The loop over the slots of both spaces, of which there are as many. When a region cannot be
  -- copied, `?` ends the loop, and the slots behind it stay empty.
  unfoldable pub copy_slots : ℕ → Regions → World mmu → Option (Bool × Regions × World mmu)
  copy_slots root [] w = some (true, [], w)
  copy_slots root (none ∷ rs) w = elim (copy_slots root rs w) [
    | none ↦ none
    | some (done, rs', w') ↦ some (done, none ∷ rs', w')
  ]
  copy_slots root (some r ∷ rs) w = elim (copy_region root r w) [
    | none ↦ none
    | some (false, q, w1) ↦ some (false, some q ∷ replicate (length rs) none, w1)
    | some (true, q, w1) ↦ elim (copy_slots root rs w1) [
      | none ↦ none
      | some (done, rs', w') ↦ some (done, some q ∷ rs', w')
    ]
  ]

  -- A child that is not complete is dropped.
  unfoldable pub clone_as : AddressSpace → ℕ → World mmu → Option (Option AddressSpace × World mmu)
  unfolding copy_slots drop_space
  clone_as src root w = elim (copy_slots root src.regions w) [
    | none ↦ none
    | some (done, rs, w') ↦
        let dst : AddressSpace = record {
          page_table_root = root;
          regions = rs;
          heap_start = src.heap_start;
          heap_end = src.heap_end;
        } in
        if done
        then some (some dst, w')
        else elim (drop_space mmu dst w') [ none ↦ none | some w'' ↦ some (none, w'') ]
  ]
