-- ===== src/Elf.antt =====
-- elf/src/lib.rs: the headers of an executable, read from its bytes. `Load` maps the segments into an
-- address space; `Header`, `Load.Segments` and `Load.Heap`
-- state what loading guarantees.
pub mod Load
pub mod Header
mod Tests
use cyanos.Base.{
  ℕ, ◌+◌, Bool, true, false, ◌||◌, Option, none, some, List, [], ◌∷◌, ltb, leb, ◌==◌, if◌then◌else◌,
  length, get_or, ◌≡◌, ap,
}
use cyanos.Base.Text.{same_bytes, slice}
use cyanos.Server.Wire.{from_le}

pub data ElfError : Type 0 where
  too_short bad_magic not_elf64 not_little_endian not_executable unsupported_arch bad_program_header
        mapping_failed segment_overflow :
      ElfError

pub data Result {ℓ} (T : Type ℓ) : Type ℓ where
  ok : T → Result T
  err : ElfError → Result T

pub ok-injective {ℓ} : {A : Type ℓ} {a b : A} → ok a ≡ ok b → a ≡ b
ok-injective {a} e = ap (λ r. elim r [ ok x ↦ x | err f ↦ a ]) e

infixl 5 ◌>>=◌
-- `?`: the first error ends the function.
abbrev pub ◌>>=◌ {ℓ ℓ'} : {A : Type ℓ} → {B : Type ℓ'} → Result A → (A → Result B) → Result B
err failure >>= next = err failure
ok result >>= next = next result

-- `ok_or(e)?`.
abbrev pub ok_or {ℓ} : {A : Type ℓ} → Option A → ElfError → Result A
ok_or none e = err e
ok_or (some a) e = ok a

abbrev pub guard : (holds : Bool) (failure : ElfError) → Result (Unit {0})
guard false failure = err failure
guard true failure = ok tt

-- A test before the rest.
infixl 5 ◌>>◌
abbrev pub ◌>>◌ {ℓ} : {T : Type ℓ} → Result (Unit {0}) → Result T → Result T
test >> rest = test >>= λ passed. rest

abbrev pub elf_magic : List ℕ
elf_magic = 127 ∷ 69 ∷ 76 ∷ 70 ∷ []

abbrev pub elfclass64 : ℕ
elfclass64 = 2

abbrev pub elfdata2lsb : ℕ
elfdata2lsb = 1

abbrev pub et_exec : ℕ
et_exec = 2

abbrev pub et_dyn : ℕ
et_dyn = 3

abbrev pub pt_load : ℕ
pt_load = 1

abbrev pub pf_x : ℕ
pf_x = 1

abbrev pub pf_w : ℕ
pf_w = 2

-- A little-endian number of `n` bytes at an offset, if it lies inside the bytes.
abbrev field : ℕ → List ℕ → ℕ → Option ℕ
field n b off = if ltb (length b) (off + n) then none else some (from_le (slice off (off + n) b))

unfoldable pub r16 : List ℕ → ℕ → Option ℕ
unfolding from_le
r16 b off = field 2 b off

unfoldable pub r32 : List ℕ → ℕ → Option ℕ
unfolding from_le
r32 b off = field 4 b off

unfoldable pub r64 : List ℕ → ℕ → Option ℕ
unfolding from_le
r64 b off = field 8 b off

pub record Ehdr : Type 0 where
  pub e_type : ℕ
  pub e_machine : ℕ
  pub e_entry : ℕ
  pub e_phoff : ℕ
  pub e_phentsize : ℕ
  pub e_phnum : ℕ

-- `em_target` is the machine that the kernel is built for.
unfoldable pub parse_ehdr : ℕ → List ℕ → Result Ehdr
unfolding r16 r64 same_bytes
parse_ehdr em_target b = do
  guard (leb 64 (length b)) too_short
  guard (same_bytes (slice 0 4 b) elf_magic) bad_magic
  guard (get_or b 4 0 == elfclass64) not_elf64
  guard (get_or b 5 0 == elfdata2lsb) not_little_endian
  e_type ← ok_or (r16 b 16) too_short
  e_machine ← ok_or (r16 b 18) too_short
  e_entry ← ok_or (r64 b 24) too_short
  e_phoff ← ok_or (r64 b 32) too_short
  e_phentsize ← ok_or (r16 b 54) too_short
  e_phnum ← ok_or (r16 b 56) too_short
  guard ((e_type == et_exec) || (e_type == et_dyn)) not_executable
  guard (e_machine == em_target) unsupported_arch
  ok (record {
    e_type = e_type;
    e_machine = e_machine;
    e_entry = e_entry;
    e_phoff = e_phoff;
    e_phentsize = e_phentsize;
    e_phnum = e_phnum;
  })

pub record Phdr : Type 0 where
  pub p_type : ℕ
  pub p_flags : ℕ
  pub p_offset : ℕ
  pub p_vaddr : ℕ
  pub p_filesz : ℕ
  pub p_memsz : ℕ

unfoldable pub parse_phdr : List ℕ → ℕ → Result Phdr
unfolding r32 r64
parse_phdr b off = do
  p_type ← ok_or (r32 b off) bad_program_header
  p_flags ← ok_or (r32 b (off + 4)) bad_program_header
  p_offset ← ok_or (r64 b (off + 8)) bad_program_header
  p_vaddr ← ok_or (r64 b (off + 16)) bad_program_header
  p_filesz ← ok_or (r64 b (off + 32)) bad_program_header
  p_memsz ← ok_or (r64 b (off + 40)) bad_program_header
  ok (record {
    p_type = p_type;
    p_flags = p_flags;
    p_offset = p_offset;
    p_vaddr = p_vaddr;
    p_filesz = p_filesz;
    p_memsz = p_memsz;
  })
