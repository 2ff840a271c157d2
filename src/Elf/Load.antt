-- ===== src/Elf/Load.antt =====
-- `load` of elf/src/lib.rs: the segments of an executable are mapped into an address space and their
-- bytes copied through the direct map, and the heap is placed above them. The maintenance of the
-- processor's caches and the debug output are left out.
pub mod Segments
pub mod Ends
pub mod Heap
use cyanos.Base.{
  ℕ, zero, suc, ◌+◌, ◌-◌, ◌*◌, bit_and, Bool, true, false, not, ◌&&◌, ◌||◌, Option, none, some,
  List, ltb, ◌==◌, if◌then◌else◌, length, add64,
}
use cyanos.Base.Text.{slice}
use cyanos.Elf.{
  ElfError, Result, Ehdr, Phdr, ok, err, too_short, bad_program_header, mapping_failed,
  segment_overflow, ◌>>=◌, ok_or, pt_load, pf_x, pf_w, parse_ehdr, parse_phdr,
}
use cyanos.Mm.Buddy.{page_size}
use cyanos.Mm.Mmu.{Mmu, flag_present, flag_writable, flag_user, flag_execute}
use cyanos.Mm.Vmm
use cyanos.Mm.Vmm.{AddressSpace, VmaRegion, World, page_down, checked_add}
use cyanos.Mm.Vmm.Break.{page_up}
use cyanos.Mm.Vmm.Map.{map_vma}
use cyanos.Server.Memory.{store}

abbrev has_bit : ℕ → ℕ → Bool
has_bit flags bit = not (bit_and flags bit == 0)

-- A segment that asks for both writing and execution is not writable.
unfoldable pub segment_flags : ℕ → ℕ
segment_flags p_flags =
    flag_present
    + flag_user
    + (if has_bit p_flags pf_w && not (has_bit p_flags pf_x) then flag_writable else 0)
    + (if has_bit p_flags pf_x then flag_execute else 0)

-- Nothing of the segment is mapped if its type is another one or it is empty.
abbrev pub is_skipped : Phdr → Bool
is_skipped ph = not (ph.p_type == pt_load) || (ph.p_memsz == 0)

-- The highest end so far with this segment.
abbrev pub higher : Phdr → ℕ → Result ℕ
higher ph highest = elim (checked_add ph.p_vaddr ph.p_memsz) [
  | none ↦ err segment_overflow
  | some seg_end ↦ ok (if ltb highest seg_end then seg_end else highest)
]

-- A page stays free between the segments and the heap.
abbrev pub place_heap : ℕ → AddressSpace → AddressSpace
place_heap highest as_ =
    if highest == 0
    then as_
    else (let heap_start = add64 (page_up highest) page_size in
        record as_ { heap_start = heap_start; heap_end = heap_start })

-- The table of program headers, if it lies inside the bytes.
unfoldable pub check_table : ℕ → List ℕ → Result Ehdr
unfolding parse_ehdr
check_table em_target bytes = parse_ehdr em_target bytes >>= λ h.
    ok_or (checked_add h.e_phoff (h.e_phentsize * h.e_phnum)) bad_program_header >>= λ end.
    if ltb (length bytes) end then err bad_program_header else ok h

module _ (mmu : Mmu) where
  -- The highest end of a segment so far or an error, with what has been changed.
  abbrev pub Outcome : Type 0
  Outcome = Result ℕ × AddressSpace × World mmu

  -- The bytes of the file in the pages of the segment.
  abbrev copy_segment : List ℕ → Phdr → ℕ → World mmu → World mmu
  copy_segment bytes ph phys_base w = record w {
    memory =
        store (add64 phys_base w.hhdm_offset) (slice ph.p_offset (ph.p_offset + ph.p_filesz) bytes)
          w.memory;
  }

  -- After the mapping: the region is looked up again, and the end is checked last.
  unfoldable pub fill_segment : List ℕ → Phdr → ℕ → AddressSpace → World mmu → Outcome
  unfolding store Vmm.find
  fill_segment bytes ph highest as_ w = elim (Vmm.find (page_down ph.p_vaddr) as_) [
    | none ↦ (err mapping_failed, as_, w)
    | some vma ↦
        (higher ph highest, as_, copy_segment bytes ph (add64 vma.phys (ph.p_vaddr - vma.start)) w)
  ]

  -- The outer `none` is a panic of the page allocator.
  unfoldable pub load_segment : List ℕ → Phdr → ℕ → AddressSpace → World mmu → Option Outcome
  unfolding map_vma segment_flags fill_segment
  load_segment bytes ph highest as_ w =
      if is_skipped ph
      then some (ok highest, as_, w)
      else elim (checked_add ph.p_offset ph.p_filesz) [
        | none ↦ some (err segment_overflow, as_, w)
        | some fend ↦
            let page_vaddr = page_down ph.p_vaddr in
            let map_size = add64 ph.p_memsz (ph.p_vaddr - page_vaddr) in
            if ltb (length bytes) fend
            then some (err bad_program_header, as_, w)
            else elim (map_vma mmu page_vaddr map_size (segment_flags ph.p_flags) as_ w) [
              | none ↦ none
              | some (false, as_', w') ↦ some (err mapping_failed, as_', w')
              | some (true, as_', w') ↦ some (fill_segment bytes ph highest as_' w')
            ]
      ]

  -- `n` headers of `phentsize` bytes from `ph_off` on.
  unfoldable pub load_segments : List ℕ → ℕ → ℕ → ℕ → ℕ → AddressSpace → World mmu → Option Outcome
  unfolding load_segment parse_phdr
  load_segments bytes phentsize zero ph_off highest as_ w = some (ok highest, as_, w)
  load_segments bytes phentsize (suc n) ph_off highest as_ w = elim (parse_phdr bytes ph_off) [
    | err e ↦ some (err e, as_, w)
    | ok ph ↦ elim (load_segment bytes ph highest as_ w) [
      | none ↦ none
      | some (err e, as_', w') ↦ some (err e, as_', w')
      | some (ok highest', as_', w') ↦
          load_segments bytes phentsize n (ph_off + phentsize) highest' as_' w'
    ]
  ]

  unfoldable pub load :
      ℕ → List ℕ → AddressSpace → World mmu → Option (Result ℕ × AddressSpace × World mmu)
  unfolding check_table load_segments
  load em_target bytes as_ w = elim (check_table em_target bytes) [
    | err e ↦ some (err e, as_, w)
    | ok h ↦ elim (load_segments bytes h.e_phentsize h.e_phnum h.e_phoff 0 as_ w) [
      | none ↦ none
      | some (err e, as_', w') ↦ some (err e, as_', w')
      | some (ok highest, as_', w') ↦ some (ok h.e_entry, place_heap highest as_', w')
    ]
  ]
