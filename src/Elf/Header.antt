-- ===== src/Elf/Header.antt =====
-- Which bytes `parse_ehdr` and `parse_phdr` of elf/src/lib.rs accept.
use cyanos.Base.{
  ℕ, ◌+◌, ◌≤◌, ◌≡◌, refl, sym, ap, ◌∙◌, ◌↔◌, ◌⊎◌, inl, inr, Bool, true, false, ◌||◌, some, List,
  arith, dec_lt, ltb, leb, ◌==◌, if◌then◌else◌, Bool-cases, ==_true, ltb-false, leb→le, length,
  get_or, ◌<◌, Option, none, ℕ_discrete, lt→ltb,
}
use cyanos.Base.Text.{same_bytes, same_bytes_refl, same_bytes_eq, slice}
use cyanos.Elf.{
  Result, Ehdr, Phdr, ok, err, ok-injective, guard, bad_magic, not_elf64, not_little_endian,
  not_executable, unsupported_arch, bad_program_header, r16, r32, r64, parse_ehdr, parse_phdr,
  elf_magic, elfclass64, elfdata2lsb, et_exec, et_dyn, ◌>>◌, ◌>>=◌, ok_or,
}
use cyanos.Server.Wire.{from_le}

-- The little-endian number of `n` bytes at an offset.
unfoldable pub word : ℕ → ℕ → List ℕ → ℕ
unfolding from_le
word n off b = from_le (slice off (off + n) b)

abbrev pub header_of : List ℕ → Ehdr
header_of b = record {
  e_type = word 2 16 b;
  e_machine = word 2 18 b;
  e_entry = word 8 24 b;
  e_phoff = word 8 32 b;
  e_phentsize = word 2 54 b;
  e_phnum = word 2 56 b;
}

abbrev pub phdr_of : List ℕ → ℕ → Phdr
phdr_of b off = record {
  p_type = word 4 off b;
  p_flags = word 4 (off + 4) b;
  p_offset = word 8 (off + 8) b;
  p_vaddr = word 8 (off + 16) b;
  p_filesz = word 8 (off + 32) b;
  p_memsz = word 8 (off + 40) b;
}

-- The bytes start like a 64-bit little-endian executable for the machine.
pub record IsElf (em_target : ℕ) (b : List ℕ) : Type 0 where
  pub long : 64 ≤ length b
  pub magic : slice 0 4 b ≡ elf_magic
  pub class : get_or b 4 0 ≡ elfclass64
  pub encoding : get_or b 5 0 ≡ elfdata2lsb
  pub type : (word 2 16 b ≡ et_exec) ⊎ (word 2 16 b ≡ et_dyn)
  pub machine : word 2 18 b ≡ em_target

r16_in : (b : List ℕ) (off : ℕ) → off + 2 ≤ length b → r16 b off ≡ some (word 2 off b)
unfolding r16 word
r16_in b off h = rw (ltb-false (length b) (off + 2) h) refl

r32_in : (b : List ℕ) (off : ℕ) → off + 4 ≤ length b → r32 b off ≡ some (word 4 off b)
unfolding r32 word
r32_in b off h = rw (ltb-false (length b) (off + 4) h) refl

r64_in : (b : List ℕ) (off : ℕ) → off + 8 ≤ length b → r64 b off ≡ some (word 8 off b)
unfolding r64 word
r64_in b off h = rw (ltb-false (length b) (off + 8) h) refl

-- The tests in the order of the source: magic, class, encoding, type and machine.
abbrev tests : List ℕ → Bool → Bool → Bool → Bool → Bool → Result Ehdr
tests b m c d t a = do
  guard m bad_magic
  guard c not_elf64
  guard d not_little_endian
  guard t not_executable
  guard a unsupported_arch
  ok (header_of b)

abbrev tests_on : ℕ → List ℕ → Result Ehdr
tests_on em_target b =
    tests b (same_bytes (slice 0 4 b) elf_magic) (get_or b 4 0 == elfclass64)
      (get_or b 5 0 == elfdata2lsb) ((word 2 16 b == et_exec) || (word 2 16 b == et_dyn))
      (word 2 18 b == em_target)

parse_ehdr_long :
    (em_target : ℕ) (b : List ℕ) → 64 ≤ length b → parse_ehdr em_target b ≡ tests_on em_target b
unfolding parse_ehdr
parse_ehdr_long em_target b h =
    let long : leb 64 (length b) ≡ true = ground arith in
    rw
      (
        long,
        r16_in b 16 (omega (arith, h)),
        r16_in b 18 (omega (arith, h)),
        r64_in b 24 (omega (arith, h)),
        r64_in b 32 (omega (arith, h)),
        r16_in b 54 (omega (arith, h)),
        r16_in b 56 (omega (arith, h)),
        parse_ehdr,
      )
      refl

or_eq : (n a b : ℕ) → ((n == a) || (n == b)) ≡ true → (n ≡ a) ⊎ (n ≡ b)
or_eq n a b h = elim (ℕ_discrete n a) [ yes p ↦ inl p | no p ↦ inr (ground (arith, h, p)) ]

module _ (em_target : ℕ) (b : List ℕ) where
  -- What a chain of tests that succeeds says.
  abbrev Passed : Bool → Bool → Bool → Bool → Bool → Ehdr → Type 0
  Passed m c d t a h =
      (m ≡ true) × (c ≡ true) × (d ≡ true) × (t ≡ true) × (a ≡ true) × (h ≡ header_of b)

  passed : (m c d t a : Bool) (h : Ehdr) → tests b m c d t a ≡ ok h → Passed m c d t a h
  passed true true true true true h e = (refl, refl, refl, refl, refl, sym (ok-injective e))
  passed true true true true false h e = absurd (cc e)
  passed true true true false a h e = absurd (cc e)
  passed true true false t a h e = absurd (cc e)
  passed true false d t a h e = absurd (cc e)
  passed false c d t a h e = absurd (cc e)

  accepts : IsElf em_target b → parse_ehdr em_target b ≡ ok (header_of b)
  accepts v =
      let magic : same_bytes (slice 0 4 b) elf_magic ≡ true =
        ap (λ s. same_bytes s elf_magic) v.magic ∙ same_bytes_refl elf_magic in
      let class : (get_or b 4 0 == elfclass64) ≡ true = ==_true _ _ v.class in
      let encoding : (get_or b 5 0 == elfdata2lsb) ≡ true = ==_true _ _ v.encoding in
      let type : ((word 2 16 b == et_exec) || (word 2 16 b == et_dyn)) ≡ true =
        ground (arith, v.type) in
      let machine : (word 2 18 b == em_target) ≡ true = ==_true _ _ v.machine in
      parse_ehdr_long em_target b v.long ∙ rw (magic, class, encoding, type, machine) refl

  rejects : (h : Ehdr) → parse_ehdr em_target b ≡ ok h → IsElf em_target b × (h ≡ header_of b)
  unfolding parse_ehdr
  rejects h e = elim (Bool-cases (leb 64 (length b))) [
    | inr short ↦ absurd (cc (rw (short, parse_ehdr) at e))
    | inl long ↦
        let fits : 64 ≤ length b = leb→le 64 (length b) long in
        let (m, c, d, t, a, same) =
          passed (same_bytes (slice 0 4 b) elf_magic) (get_or b 4 0 == elfclass64)
            (get_or b 5 0 == elfdata2lsb) ((word 2 16 b == et_exec) || (word 2 16 b == et_dyn))
            (word 2 18 b == em_target) h (sym (parse_ehdr_long em_target b fits) ∙ e) in
        (
          record {
            long = fits;
            magic = same_bytes_eq (slice 0 4 b) elf_magic m;
            class = ground (arith, c);
            encoding = ground (arith, d);
            type = or_eq (word 2 16 b) et_exec et_dyn t;
            machine = ground (arith, a);
          },
          same,
        )
  ]

-- The header of an executable is accepted exactly if the bytes are long enough, start like a 64-bit
-- little-endian executable or shared object for the machine, and the result has the fields that stand
-- at their offsets.
pub parse_ehdr_iff :
    (em_target : ℕ) (b : List ℕ) (h : Ehdr)
    → (parse_ehdr em_target b ≡ ok h) ↔ (IsElf em_target b × (h ≡ header_of b))
parse_ehdr_iff em_target b h =
    (rejects em_target b h, λ v. accepts em_target b v.0 ∙ ap ok (sym v.1))

r64_out : (b : List ℕ) (off : ℕ) → length b < off + 8 → r64 b off ≡ none
unfolding r64
r64_out b off h = rw (lt→ltb (length b) (off + 8) h) refl

abbrev fields : ℕ → ℕ → ℕ → ℕ → ℕ → ℕ → Phdr
fields p_type p_flags p_offset p_vaddr p_filesz p_memsz = record {
  p_type = p_type;
  p_flags = p_flags;
  p_offset = p_offset;
  p_vaddr = p_vaddr;
  p_filesz = p_filesz;
  p_memsz = p_memsz;
}

-- Fields of which the last one is missing.
last_missing :
    (type flags offset vaddr filesz : Option ℕ)
    → (ok_or type bad_program_header >>= λ p_type. ok_or flags bad_program_header >>= λ p_flags.
        ok_or offset bad_program_header >>= λ p_offset.
        ok_or vaddr bad_program_header >>= λ p_vaddr.
        ok_or filesz bad_program_header >>= λ p_filesz.
        ok_or {A = ℕ} none bad_program_header >>= λ p_memsz.
        ok (fields p_type p_flags p_offset p_vaddr p_filesz p_memsz))
      ≡ err bad_program_header
last_missing none flags offset vaddr filesz = refl
last_missing (some a) none offset vaddr filesz = refl
last_missing (some a) (some b) none vaddr filesz = refl
last_missing (some a) (some b) (some c) none filesz = refl
last_missing (some a) (some b) (some c) (some d) none = refl
last_missing (some a) (some b) (some c) (some d) (some e) = refl

-- A program header is read exactly if its first 48 bytes lie inside the bytes; there is no other
-- error than that it does not.
pub parse_phdr_lem :
    (b : List ℕ) (off : ℕ)
    → parse_phdr b off
      ≡ (if ltb (length b) (off + 48) then err bad_program_header else ok (phdr_of b off))
unfolding parse_phdr
parse_phdr_lem b off = elim (dec_lt (length b) (off + 48)) [
  | no fits ↦
      rw
        (
          ltb-false (length b) (off + 48) (omega (arith, fits)),
          r32_in b off (omega (arith, fits)),
          r32_in b (off + 4) (omega (arith, fits)),
          r64_in b (off + 8) (omega (arith, fits)),
          r64_in b (off + 16) (omega (arith, fits)),
          r64_in b (off + 32) (omega (arith, fits)),
          r64_in b (off + 40) (omega (arith, fits)),
          parse_phdr,
        )
        refl
  | yes short ↦
      rw
        (
          lt→ltb (length b) (off + 48) short,
          r64_out b (off + 40) (omega (arith, short)),
          parse_phdr,
        )
        (last_missing (r32 b off) (r32 b (off + 4)) (r64 b (off + 8)) (r64 b (off + 16))
          (r64 b (off + 32)))
]
