-- ===== src/Mm/Vmm.antt =====
-- mm/src/vmm.rs: the regions of an address space. The children model its operations: `Map` (eager
-- and lazy mappings), `Fault` (demand paging and translation), `Unmap`, `Protect`, `Break` and `Drop`.
pub mod Map
pub mod Fault
pub mod Unmap
pub mod Protect
pub mod Break
pub mod Drop
mod Tests
use cyanos.Base.{
  ℕ, suc, ◌+◌, ◌-◌, ◌/◌, ◌%◌, ◌^◌, Bool, false, ◌&&◌, ◌||◌, Option, none, some, List, [], ◌∷◌, ltb,
  leb, ◌==◌, if◌then◌else◌, get_or, replicate, add64,
}
use cyanos.Base.Bits.{and_not}
use cyanos.Mm.Buddy
use cyanos.Mm.Buddy.{Buddy, page_size}
use cyanos.Mm.Slab.{order_loop}
use cyanos.Mm.Mmu.{Mmu}

abbrev prot_read : ℕ
prot_read = 1

abbrev pub prot_write : ℕ
prot_write = 2

abbrev pub prot_exec : ℕ
prot_exec = 4

abbrev map_private : ℕ
map_private = 2

abbrev map_anonymous : ℕ
map_anonymous = 32

pub record VmaRegion : Type 0 where
  pub start : ℕ
  pub end : ℕ
  pub phys : ℕ
  pub flags : ℕ
  pub lazy : Bool
  pub lazy_pages : List ℕ
  pub lazy_count : ℕ
  pub prot : ℕ
  pub map_flags : ℕ
  pub file_cap : ℕ
  pub file_off : ℕ
  pub cow : Bool

abbrev pub Regions : Type 0
Regions = List (Option VmaRegion)

pub record AddressSpace : Type 0 where
  pub page_table_root : ℕ
  pub regions : Regions
  pub heap_start : ℕ
  pub heap_end : ℕ

unfoldable pub new : ℕ → AddressSpace
unfolding replicate
new root = record {
  page_table_root = root;
  regions = replicate 8 none;
  heap_start = 0;
  heap_end = 0;
}

-- What an operation changes besides the address space: the page allocator, the page tables, and
-- memory, by the virtual address in the direct map.
pub record World (mmu : Mmu) : Type 0 where
  pub pages : Buddy
  pub tables : mmu.Tables
  pub memory : ℕ → ℕ
  pub hhdm_offset : ℕ

-- `virt & !(PAGE_SIZE - 1)`.
abbrev pub page_down : ℕ → ℕ
page_down virt = and_not virt 4095

-- `(size + PAGE_SIZE - 1) / PAGE_SIZE`.
abbrev pub pages_for : ℕ → ℕ
pages_for size = add64 size 4095 / page_size

abbrev pub checked_add : ℕ → ℕ → Option ℕ
checked_add a b = if ltb (a + b) (2 ^ 64) then some (a + b) else none

-- `pages_to_order` of this file: the loop with no limit, on fuel for 64 doublings.
unfoldable pub pages_to_order : ℕ → ℕ
pages_to_order pages = order_loop 64 pages 1 0

-- `self.regions.iter().position(|r| r.is_none())`.
unfoldable pub free_slot : Regions → Option ℕ
free_slot [] = none
free_slot (none ∷ rs) = some 0
free_slot (some r ∷ rs) = elim (free_slot rs) [ none ↦ none | some i ↦ some (suc i) ]

-- `virt < r.end && end > r.start` for some region.
unfoldable pub overlaps : ℕ → ℕ → Regions → Bool
overlaps virt end [] = false
overlaps virt end (none ∷ rs) = overlaps virt end rs
overlaps virt end (some r ∷ rs) = (ltb virt r.end && ltb r.start end) || overlaps virt end rs

abbrev pub covers : ℕ → VmaRegion → Bool
covers va r = leb r.start va && ltb va r.end

unfoldable pub find_in : ℕ → Regions → Option VmaRegion
find_in va [] = none
find_in va (none ∷ rs) = find_in va rs
find_in va (some r ∷ rs) = if covers va r then some r else find_in va rs

unfoldable pub find : ℕ → AddressSpace → Option VmaRegion
unfolding find_in
find va as_ = find_in va as_.regions

-- `virt_to_phys`: the physical address behind a virtual one, through a region that covers it.
abbrev pub translate : ℕ → VmaRegion → Option ℕ
translate virt r =
    if r.lazy
    then (let phys_page = get_or r.lazy_pages ((virt - r.start) / page_size) 0 in
        if phys_page == 0 then none else some (phys_page + (virt - r.start) % page_size))
    else some (r.phys + (virt - r.start))

unfoldable pub virt_to_phys : ℕ → AddressSpace → Option ℕ
virt_to_phys virt as_ = elim (find virt as_) [ none ↦ none | some r ↦ translate virt r ]

-- `write_bytes(0, len)` at an address.
abbrev pub zero_bytes : ℕ → ℕ → (ℕ → ℕ) → ℕ → ℕ
zero_bytes addr len m a = if leb addr a && ltb a (addr + len) then 0 else m a

-- The VMA that `map` and `map_lazy` record.
abbrev pub region_for : ℕ → ℕ → ℕ → ℕ → Bool → VmaRegion
region_for start end phys flags lazy = record {
  start = start;
  end = end;
  phys = phys;
  flags = flags;
  lazy = lazy;
  lazy_pages = [];
  lazy_count = 0;
  prot = prot_read + prot_write;
  map_flags = map_anonymous + map_private;
  file_cap = 0;
  file_off = 0;
  cow = false;
}
