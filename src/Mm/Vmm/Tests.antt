-- ===== src/Mm/Vmm/Tests.antt =====
-- The theorems on address spaces at a concrete space, with page tables that keep no state.
use cyanos.Base.{
  ◌+◌, ◌/◌, ◌%◌, ◌≡◌, refl, Bool, true, ◌&&◌, none, some, [], ◌∷◌, arith, ◌==◌, if◌then◌else◌,
  replicate,
}
use cyanos.Base.Bits.{and_not}
use cyanos.Mm.Buddy
use cyanos.Mm.Buddy.{Buddy, page_size}
use cyanos.Mm.Mmu.{Mmu}
use cyanos.Mm.Cow
use cyanos.Mm.Vmm
use cyanos.Mm.Vmm.Fault
use cyanos.Mm.Vmm.Unmap
use cyanos.Mm.Vmm.Break
use cyanos.Mm.Vmm.{
  World, AddressSpace, VmaRegion, Regions, find, find_in, virt_to_phys, covers, page_down,
  checked_add, region_for,
}
use cyanos.Mm.Vmm.Map.Disjoint.{IsDisjoint}
use cyanos.Mm.Vmm.Fault.{handle_user_page_fault}
use cyanos.Mm.Vmm.Fault.Laws.{handle_user_page_fault-virt_to_phys}
use cyanos.Mm.Vmm.Protect.{mprotect}
use cyanos.Mm.Vmm.Protect.Laws.{IsWx, mprotect-IsWx}
use cyanos.Mm.Vmm.Break.{brk}
use cyanos.Mm.Vmm.Break.Laws.{brk-IsDisjoint}
use mathlib.Core.Option

-- Every mapping succeeds.
abbrev plain : Mmu
plain = record {
  Tables = Unit;
  map_page = λ root virt phys flags t. (true, t);
  unmap_page = λ root virt t. t;
  tlb_shootdown_all = λ t. t;
}

-- One free page, at 64 KiB.
abbrev one_page : Buddy
one_page = record {
  free_lists =
      some 65536 ∷ none ∷ none ∷ none ∷ none ∷ none ∷ none ∷ none ∷ none ∷ none ∷ none ∷ [];
  total_pages = 1;
  free_pages = 1;
}

abbrev no_page : Buddy
no_page = record {
  free_lists = none ∷ none ∷ none ∷ none ∷ none ∷ none ∷ none ∷ none ∷ none ∷ none ∷ none ∷ [];
  total_pages = 1;
  free_pages = 0;
}

abbrev world : World plain
world = record { pages = one_page; tables = tt; memory = λ a. 0; hhdm_offset = 0 }

-- A lazy heap of two pages at 1 MiB, and a free slot.
abbrev heap : VmaRegion
heap = region_for 1048576 1056768 0 7 true

abbrev space : AddressSpace
space = record {
  page_table_root = 0;
  regions = some heap ∷ none ∷ [];
  heap_start = 1048576;
  heap_end = 1056768;
}

-- The space and the world after a fault in the second page.
abbrev backed : AddressSpace
backed = record space {
  regions = some (record heap { lazy_pages = 0 ∷ 65536 ∷ []; lazy_count = 1 }) ∷ none ∷ [];
}

finds_heap : find 1052672 space ≡ some heap
unfolding find find_in
finds_heap = refl

takes_page : Buddy.alloc 0 one_page ≡ some (some 65536, no_page)
unfolding Buddy.alloc Buddy.alloc_from Buddy.split_down and_not
takes_page = refl

abbrev handled : Bool × AddressSpace × World plain
handled =
    (true, backed, record world { pages = no_page; memory = Vmm.zero_bytes 65536 4096 (λ a. 0) })

faults : handle_user_page_fault plain 1052672 space world ≡ some handled
unfolding handle_user_page_fault Fault.demand_page Fault.grow Fault.back_page Fault.change_first
    find find_in Buddy.alloc Buddy.alloc_from Buddy.split_down replicate and_not
faults = refl

handle_user_page_fault-virt_to_phys_example : virt_to_phys 1052680 backed ≡ (
    if covers 1052680 heap && (1052680 / page_size == 1052672 / page_size)
    then some (65536 + 1052680 % page_size)
    else virt_to_phys 1052680 space)
handle_user_page_fault-virt_to_phys_example =
    handle_user_page_fault-virt_to_phys plain 1052672 1052680 space world heap 65536 no_page backed
      handled.2 (tt, tt) finds_heap refl takes_page (λ e. omega arith) faults

-- The second page of the heap is unmapped.
abbrev shortened : AddressSpace
shortened = record space { regions = some (record heap { end = 1052672 }) ∷ none ∷ [] }

mprotect-IsWx_example : IsWx (mprotect plain 1048576 4096 5 space world).1.regions
mprotect-IsWx_example = mprotect-IsWx plain 1048576 4096 5 space world (refl, tt)

-- The break is raised by a page.
abbrev raised : AddressSpace
raised = record space {
  regions = some (record heap { end = 1060864 }) ∷ none ∷ [];
  heap_end = 1060864;
}

raises : brk plain 1056769 space world ≡ some (1060864, raised, world)
unfolding brk Break.heap_at Break.grow_heap Break.blocked Vmm.overlaps and_not
raises = refl

brk-IsDisjoint_example : IsDisjoint raised.regions
brk-IsDisjoint_example =
    brk-IsDisjoint plain 1056769 space world 1060864 raised world (omega arith, tt) (tt, tt) raises

-- The heap has no page yet, so its copy needs none.
abbrev child : AddressSpace
child = record space { page_table_root = 8192 }
