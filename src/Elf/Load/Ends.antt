-- ===== src/Elf/Load/Ends.antt =====
-- The ends of the segments that `load_segments` has mapped.
use cyanos.Base.{
  ℕ, ◌+◌, ◌*◌, ◌≤◌, ◌<◌, ◌≡◌, inl, inr, false, Option, none, some, List, arith, Bool-cases, ◌-◌,
  refl, Bool, true, ltb, Option-cases, length, add64, zero, suc, sym, ap, subst, ◌∙◌,
}
use cyanos.Elf.{Result, ok-injective, Phdr, ok, err, parse_phdr, mapping_failed}
use cyanos.Elf.Load.{
  load_segments, load_segment, fill_segment, is_skipped, Outcome, higher, segment_flags,
}
use cyanos.Mm.Mmu.{Mmu}
use cyanos.Mm.Vmm
use cyanos.Mm.Vmm.{AddressSpace, World, page_down, checked_add}
use cyanos.Mm.Vmm.Map.{map_vma}

abbrev pub end_of : Phdr → ℕ
end_of ph = ph.p_vaddr + ph.p_memsz

-- The highest end after a segment: it is as before or the end of the segment, and covers both.
record Above (ph : Phdr) (highest h : ℕ) : Type 0 where
  old : highest ≤ h
  new : is_skipped ph ≡ false → end_of ph ≤ h
  only : (b : ℕ) → highest ≤ b → (is_skipped ph ≡ false → end_of ph ≤ b) → h ≤ b

-- The segments that the `n` headers from an offset on describe.
abbrev pub Describes : List ℕ → ℕ → ℕ → ℕ → Phdr → Type 0
Describes bytes phentsize n off ph =
    (i : ℕ) × (i < n) × (parse_phdr bytes (off + i * phentsize) ≡ ok ph) × (is_skipped ph ≡ false)

pub record AllAbove (bytes : List ℕ) (phentsize n off highest h : ℕ) : Type 0 where
  pub old : highest ≤ h
  pub new : (ph : Phdr) → Describes bytes phentsize n off ph → end_of ph ≤ h
  pub only :
      (b : ℕ)
      → highest ≤ b
      → ((ph : Phdr) → Describes bytes phentsize n off ph → end_of ph ≤ b)
      → h ≤ b

higher_lem :
    (ph : Phdr) (highest h : ℕ)
    → is_skipped ph ≡ false
    → higher ph highest ≡ ok h
    → Above ph highest h
higher_lem ph highest h more e = record {
  old = ground arith;
  new = λ _. ground arith;
  only = λ b lo hi. ground (arith, hi more);
}

module _ (mmu : Mmu) where
  -- If a segment is loaded, the highest end covers it.
  AboveOk : Phdr → ℕ → Option (Outcome mmu) → Type 0
  AboveOk ph highest none = Unit
  AboveOk ph highest (some (err e, as_, w)) = Unit
  AboveOk ph highest (some (ok h, as_, w)) = Above ph highest h

  filled :
      (ph : Phdr) (highest : ℕ) (r : Result ℕ) (as_ : AddressSpace) (w : World mmu)
      → is_skipped ph ≡ false
      → higher ph highest ≡ r
      → AboveOk ph highest (some (r, as_, w))
  unfolding AboveOk
  filled ph highest (err e) as_ w more same = tt
  filled ph highest (ok h) as_ w more same = higher_lem ph highest h more same

  fill_segment-AboveOk :
      (bytes : List ℕ) (ph : Phdr) (highest : ℕ) (as_ : AddressSpace) (w : World mmu)
      → is_skipped ph ≡ false
      → AboveOk ph highest (some (fill_segment mmu bytes ph highest as_ w))
  unfolding fill_segment AboveOk
  fill_segment-AboveOk bytes ph highest as_ w more =
      elim (Option-cases (Vmm.find (page_down ph.p_vaddr) as_)) [
        | inl none_ ↦ rw (none_, fill_segment) tt
        | inr (vma, found) ↦
            rw (found, fill_segment) (filled ph highest (higher ph highest) _ _ more refl)
      ]

  load_segment-AboveOk :
      (bytes : List ℕ) (ph : Phdr) (highest : ℕ) (as_ : AddressSpace) (w : World mmu)
      → AboveOk ph highest (load_segment mmu bytes ph highest as_ w)
  unfolding load_segment AboveOk
  load_segment-AboveOk bytes ph highest as_ w = elim (Bool-cases (is_skipped ph)) [
    | inl skip ↦
        rw (skip, load_segment)
          (record {
            old = omega arith;
            new = λ more. absurd (cc (skip, more));
            only = λ b lo hi. lo;
          })
    | inr more ↦ elim (Option-cases (checked_add ph.p_offset ph.p_filesz)) [
      | inl over ↦ rw (more, over, load_segment) tt
      | inr (fend, sum) ↦ elim (Bool-cases (ltb (length bytes) fend)) [
        | inl cut ↦ rw (more, sum, cut, load_segment) tt
        | inr fits ↦
            rw (more, sum, fits, load_segment)
              (mapped more (map_vma mmu page_vaddr map_size (segment_flags ph.p_flags) as_ w))
      ]
    ]
  ]
    where
      page_vaddr : ℕ
      page_vaddr = page_down ph.p_vaddr

      map_size : ℕ
      map_size = add64 ph.p_memsz (ph.p_vaddr - page_vaddr)

      mapped :
          is_skipped ph ≡ false
          → (o : Option (Bool × AddressSpace × World mmu))
          → AboveOk ph highest (elim o [
            | none ↦ none
            | some (false, as_', w') ↦ some (err mapping_failed, as_', w')
            | some (true, as_', w') ↦ some (fill_segment mmu bytes ph highest as_' w')
          ])
      mapped more none = tt
      mapped more (some (false, as_', w')) = tt
      mapped more (some (true, as_', w')) = fill_segment-AboveOk bytes ph highest as_' w' more

Describes-later :
    (bytes : List ℕ) (phentsize n off : ℕ) (ph : Phdr)
    → Describes bytes phentsize n (off + phentsize) ph
    → Describes bytes phentsize (suc n) off ph
Describes-later bytes phentsize n off ph (i, lt, parsed, more) =
    (suc i, omega arith, ap (parse_phdr bytes) (omega arith) ∙ parsed, more)

AllAbove-cons :
    (bytes : List ℕ) (phentsize n off highest h' h : ℕ) (ph : Phdr)
    → parse_phdr bytes off ≡ ok ph
    → Above ph highest h'
    → AllAbove bytes phentsize n (off + phentsize) h' h
    → AllAbove bytes phentsize (suc n) off highest h
AllAbove-cons bytes phentsize n off highest h' h ph parsed a rest = record {
  old = omega (arith, a.old, rest.old);
  new = new;
  only = λ b lo hi.
      rest.only b
        (a.only b lo
          (λ more. hi ph (0, omega arith, ap (parse_phdr bytes) (omega arith) ∙ parsed, more)))
        (λ q d. hi q (Describes-later bytes phentsize n off q d));
}
  where
    new : (q : Phdr) → Describes bytes phentsize (suc n) off q → end_of q ≤ h
    new q (zero, lt, found, more) =
        let same : ph ≡ q =
          ok-injective (sym parsed ∙ sym (ap (parse_phdr bytes) (omega arith)) ∙ found) in
        let top : end_of ph ≤ h' = a.new (subst (λ r. is_skipped r ≡ false) (sym same) more) in
        subst (λ r. end_of r ≤ h) same (omega (arith, top, rest.old))
    new q (suc i, lt, found, more) =
        rest.new q (i, omega arith, ap (parse_phdr bytes) (omega arith) ∙ found, more)

module _ (mmu : Mmu) where
  unfoldable pub AllAboveOk : List ℕ → ℕ → ℕ → ℕ → ℕ → Option (Outcome mmu) → Type 0
  AllAboveOk bytes phentsize n off highest none = Unit
  AllAboveOk bytes phentsize n off highest (some (err e, as_, w)) = Unit
  AllAboveOk bytes phentsize n off highest (some (ok h, as_, w)) =
      AllAbove bytes phentsize n off highest h

  pub load_segments-AllAboveOk :
      (bytes : List ℕ) (phentsize n off highest : ℕ) (as_ : AddressSpace) (w : World mmu)
      → AllAboveOk bytes phentsize n off highest
          (load_segments mmu bytes phentsize n off highest as_ w)
  unfolding load_segments AllAboveOk AboveOk
  load_segments-AllAboveOk bytes phentsize zero off highest as_ w = record {
    old = omega arith;
    new = λ ph d. absurd (omega (arith, d.1));
    only = λ b lo hi. lo;
  }
  load_segments-AllAboveOk bytes phentsize (suc n) off highest as_ w =
      parsed (parse_phdr bytes off) refl (λ ph. load_segment-AboveOk mmu bytes ph highest as_ w)
        (λ h' as_' w'. load_segments-AllAboveOk bytes phentsize n (off + phentsize) h' as_' w')
    where
      Rest : Type 0
      Rest =
          (h' : ℕ) (as_' : AddressSpace) (w' : World mmu)
          → AllAboveOk bytes phentsize n (off + phentsize) h'
              (load_segments mmu bytes phentsize n (off + phentsize) h' as_' w')

      all :
          (ph : Phdr) (h' : ℕ) (o : Option (Outcome mmu))
          → parse_phdr bytes off ≡ ok ph
          → Above ph highest h'
          → AllAboveOk bytes phentsize n (off + phentsize) h' o
          → AllAboveOk bytes phentsize (suc n) off highest o
      all ph h' none p a r = tt
      all ph h' (some (err e, as_', w')) p a r = tt
      all ph h' (some (ok h, as_', w')) p a r =
          AllAbove-cons bytes phentsize n off highest h' h ph p a r

      mapped :
          (ph : Phdr) (o : Option (Outcome mmu))
          → parse_phdr bytes off ≡ ok ph
          → AboveOk mmu ph highest o
          → Rest
          → AllAboveOk bytes phentsize (suc n) off highest (elim o [
            | none ↦ none
            | some (err e, as_', w') ↦ some (err e, as_', w')
            | some (ok h', as_', w') ↦
                load_segments mmu bytes phentsize n (off + phentsize) h' as_' w'
          ])
      mapped ph none p a rest = tt
      mapped ph (some (err e, as_', w')) p a rest = tt
      mapped ph (some (ok h', as_', w')) p a rest =
          all ph h' (load_segments mmu bytes phentsize n (off + phentsize) h' as_' w') p a
            (rest h' as_' w')

      parsed :
          (q : Result Phdr)
          → parse_phdr bytes off ≡ q
          → ((ph : Phdr) → AboveOk mmu ph highest (load_segment mmu bytes ph highest as_ w))
          → Rest
          → AllAboveOk bytes phentsize (suc n) off highest (elim q [
            | err e ↦ some (err e, as_, w)
            | ok ph ↦ elim (load_segment mmu bytes ph highest as_ w) [
              | none ↦ none
              | some (err e, as_', w') ↦ some (err e, as_', w')
              | some (ok h', as_', w') ↦
                  load_segments mmu bytes phentsize n (off + phentsize) h' as_' w'
            ]
          ])
      parsed (err e) p one rest = tt
      parsed (ok ph) p one rest =
          mapped ph (load_segment mmu bytes ph highest as_ w) p (one ph) rest
