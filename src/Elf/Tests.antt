-- ===== src/Elf/Tests.antt =====
-- Witnesses of the properties of the loader, at an executable with one segment.
use cyanos.Base.{ℕ, ◌/◌, ◌%◌, ◌≡◌, ◌↔◌, true, Option, none, some, List, [], ◌∷◌, ◌++◌}
use cyanos.Elf.{Result, Ehdr, Phdr, ok, parse_ehdr, parse_phdr}
use cyanos.Elf.Header.{IsElf, header_of, phdr_of, parse_ehdr_iff, parse_phdr_lem}
use cyanos.Elf.Load.{load}
use cyanos.Elf.Load.Segments.{load-IsSound, IsSound, Sound}
use cyanos.Mm.Buddy
use cyanos.Mm.Slab
use cyanos.Mm.Buddy.{Buddy}
use cyanos.Mm.Mmu.{Mmu}
use cyanos.Mm.Vmm
use cyanos.Mm.Vmm.Map
use cyanos.Mm.Vmm.{World, AddressSpace}

-- Every mapping succeeds.
abbrev plain : Mmu
plain = record {
  Tables = Unit;
  map_page = λ root virt phys flags t. (true, t);
  unmap_page = λ root virt t. t;
  tlb_shootdown_all = λ t. t;
}

-- One free page, at 64 KiB.
abbrev one_page : Buddy
one_page = record {
  free_lists =
      some 65536 ∷ none ∷ none ∷ none ∷ none ∷ none ∷ none ∷ none ∷ none ∷ none ∷ none ∷ [];
  total_pages = 1;
  free_pages = 1;
}

abbrev world : World plain
world = record { pages = one_page; tables = tt; memory = λ a. 0; hhdm_offset = 0 }

abbrev space : AddressSpace
space = record { page_table_root = 0; regions = none ∷ none ∷ []; heap_start = 0; heap_end = 0 }

space-IsSound : IsSound space.regions
space-IsSound = record { apart = tt; wx = tt }

-- A word of two bytes, and one of eight bytes below 2 ^ 32.
abbrev half : ℕ → List ℕ
half n = n % 256 ∷ n / 256 % 256 ∷ []

abbrev quad : ℕ → List ℕ
quad n = half (n % 65536) ++ half (n / 65536)

abbrev wide : ℕ → List ℕ
wide n = quad n ++ (0 ∷ 0 ∷ 0 ∷ 0 ∷ [])

-- 64 bytes of header with one program header, 56 bytes of it, and four bytes of code.
abbrev elf : List ℕ
elf =
    (127 ∷ 69 ∷ 76 ∷ 70 ∷ 2 ∷ 1 ∷ 1 ∷ 0 ∷ [])
    ++ wide 0
    ++ half 2
    ++ half 183
    ++ quad 1
    ++ wide 2097152
    ++ wide 64
    ++ wide 0
    ++ quad 0
    ++ half 64
    ++ half 56
    ++ half 1
    ++ half 0
    ++ half 0
    ++ half 0
    ++ quad 1
    ++ quad 5
    ++ wide 120
    ++ wide 2097152
    ++ wide 2097152
    ++ wide 4
    ++ wide 100
    ++ wide 4096
    ++ (31 ∷ 32 ∷ 3 ∷ 213 ∷ [])

load-IsSound_example : Sound (load plain 183 elf space world)
load-IsSound_example = load-IsSound plain 183 elf space world space-IsSound

abbrev space_of : Option (Result ℕ × AddressSpace × World plain) → AddressSpace
space_of none = space
space_of (some (r, as_, w)) = as_

abbrev world_of : Option (Result ℕ × AddressSpace × World plain) → World plain
world_of none = world
world_of (some (r, as_, w)) = w

abbrev loaded : AddressSpace
loaded = space_of (load plain 183 elf space world)

abbrev segment : Phdr
segment = record {
  p_type = 1;
  p_flags = 5;
  p_offset = 120;
  p_vaddr = 2097152;
  p_filesz = 4;
  p_memsz = 100;
}

abbrev header : Ehdr
header = record {
  e_type = 2;
  e_machine = 183;
  e_entry = 2097152;
  e_phoff = 64;
  e_phentsize = 56;
  e_phnum = 1;
}

parse_ehdr_iff_example :
    (parse_ehdr 183 elf ≡ ok header) ↔ (IsElf 183 elf × (header ≡ header_of elf))
parse_ehdr_iff_example = parse_ehdr_iff 183 elf header

parse_phdr_lem_example : parse_phdr elf 64 ≡ ok (phdr_of elf 64)
parse_phdr_lem_example = parse_phdr_lem elf 64
