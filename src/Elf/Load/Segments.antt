-- ===== src/Elf/Load/Segments.antt =====
-- The regions that `load` of elf/src/lib.rs makes.
use cyanos.Base.{
  ℕ, zero, suc, ◌+◌, ◌≡◌, refl, sym, subst, inl, inr, Bool, true, false, not, ◌&&◌, Option, none,
  some, [], ◌∷◌, if◌then◌else◌, set, ◌-◌, List, arith, ltb, Bool-cases, Option-cases, length, add64,
}
use cyanos.Elf.{Result, Ehdr, Phdr, ok, err, parse_phdr, pf_w, pf_x, mapping_failed}
use cyanos.Elf.Load.{
  load, load_segments, load_segment, fill_segment, segment_flags, check_table, is_skipped, Outcome,
  place_heap, has_bit, checked_add,
}
use cyanos.Mm.Mmu.{Mmu, flag_writable, flag_execute}
use cyanos.Mm.Vmm
use cyanos.Mm.Vmm.{AddressSpace, VmaRegion, World, Regions, page_down}
use cyanos.Mm.Vmm.Map.{map_vma}
use cyanos.Mm.Vmm.Map.Disjoint.{IsDisjoint, map_vma-IsDisjoint, map_vma_adds}
use cyanos.Mm.Vmm.Protect.{has}
use cyanos.Mm.Vmm.Protect.Laws.{IsWx}

-- The flags of a segment are never writable and executable at once.
segment_flags-wx :
    (p_flags : ℕ)
    → (has (segment_flags p_flags) flag_writable && has (segment_flags p_flags) flag_execute)
      ≡ false
unfolding segment_flags
segment_flags-wx p_flags = go (has_bit p_flags pf_w) (has_bit p_flags pf_x)
  where
    go :
        (w x : Bool)
        → (has (5 + (if w && not x then 2 else 0) + (if x then 8 else 0)) flag_writable
            && has (5 + (if w && not x then 2 else 0) + (if x then 8 else 0)) flag_execute)
          ≡ false
    go true true = refl
    go true false = refl
    go false true = refl
    go false false = refl

IsWx-set :
    (rs : Regions) (slot : ℕ) (q : VmaRegion)
    → (has q.flags flag_writable && has q.flags flag_execute) ≡ false
    → IsWx rs
    → IsWx (set rs slot (some q))
IsWx-set [] slot q f wx = tt
IsWx-set (none ∷ rs) zero q f wx = (f, wx)
IsWx-set (some r ∷ rs) zero q f wx = (f, wx.1)
IsWx-set (none ∷ rs) (suc slot) q f wx = IsWx-set rs slot q f wx
IsWx-set (some r ∷ rs) (suc slot) q f wx = (wx.0, IsWx-set rs slot q f wx.1)

-- What the regions of an address space keep.
pub record IsSound (rs : Regions) : Type 0 where
  pub apart : IsDisjoint rs
  pub wx : IsWx rs

-- A result that is no panic has sound regions.
abbrev pub Sound {ℓ} : {A : Type ℓ} {B : Type 0} → Option (A × AddressSpace × B) → Type 0
Sound none = Unit
Sound (some (r, as_, w)) = IsSound as_.regions

module _ (mmu : Mmu) where
  map_vma-IsSound :
      (virt size p_flags : ℕ) (as_ : AddressSpace) (w : World mmu)
      → IsSound as_.regions
      → Sound (map_vma mmu virt size (segment_flags p_flags) as_ w)
  map_vma-IsSound virt size p_flags as_ w s =
      go (map_vma mmu virt size (segment_flags p_flags) as_ w) refl
    where
      wx_after :
          (r : Bool × AddressSpace × World mmu)
          → map_vma mmu virt size (segment_flags p_flags) as_ w ≡ some r
          → IsWx r.1.regions
      wx_after r e = elim (map_vma_adds mmu virt size (segment_flags p_flags) as_ w r e) [
        | inl same ↦ subst IsWx (sym same) s.wx
        | inr (slot, q, flags, new) ↦ subst IsWx (sym new) (
            IsWx-set as_.regions slot q
              (subst (λ f. (has f flag_writable && has f flag_execute) ≡ false) (sym flags)
                (segment_flags-wx p_flags))
              s.wx)
      ]

      go :
          (o : Option (Bool × AddressSpace × World mmu))
          → map_vma mmu virt size (segment_flags p_flags) as_ w ≡ o
          → Sound o
      go none e = tt
      go (some r) e = record {
        apart = map_vma-IsDisjoint mmu virt size (segment_flags p_flags) as_ w r e s.apart;
        wx = wx_after r e;
      }

  fill_segment-as_ :
      (bytes : List ℕ) (ph : Phdr) (highest : ℕ) (as_ : AddressSpace) (w : World mmu)
      → (fill_segment mmu bytes ph highest as_ w).1 ≡ as_
  unfolding fill_segment
  fill_segment-as_ bytes ph highest as_ w =
      elim (Option-cases (Vmm.find (page_down ph.p_vaddr) as_)) [
        | inl none_ ↦ rw (none_, fill_segment) refl
        | inr (vma, found) ↦ rw (found, fill_segment) refl
      ]

  load_segment-IsSound :
      (bytes : List ℕ) (ph : Phdr) (highest : ℕ) (as_ : AddressSpace) (w : World mmu)
      → IsSound as_.regions
      → Sound (load_segment mmu bytes ph highest as_ w)
  unfolding load_segment
  load_segment-IsSound bytes ph highest as_ w s = elim (Bool-cases (is_skipped ph)) [
    | inl skip ↦ rw (skip, load_segment) s
    | inr more ↦ elim (Option-cases (checked_add ph.p_offset ph.p_filesz)) [
      | inl over ↦ rw (more, over, load_segment) s
      | inr (fend, sum) ↦ elim (Bool-cases (ltb (length bytes) fend)) [
        | inl cut ↦ rw (more, sum, cut, load_segment) s
        | inr fits ↦
            rw (more, sum, fits, load_segment)
              (mapped (map_vma mmu page_vaddr map_size (segment_flags ph.p_flags) as_ w)
                (map_vma-IsSound page_vaddr map_size ph.p_flags as_ w s))
      ]
    ]
  ]
    where
      page_vaddr : ℕ
      page_vaddr = page_down ph.p_vaddr

      map_size : ℕ
      map_size = add64 ph.p_memsz (ph.p_vaddr - page_vaddr)

      mapped :
          (o : Option (Bool × AddressSpace × World mmu))
          → Sound o
          → Sound {A = Result ℕ} (elim o [
            | none ↦ none
            | some (false, as_', w') ↦ some (err mapping_failed, as_', w')
            | some (true, as_', w') ↦ some (fill_segment mmu bytes ph highest as_' w')
          ])
      mapped none h = tt
      mapped (some (false, as_', w')) h = h
      mapped (some (true, as_', w')) h =
          subst (λ a. IsSound a.regions) (sym (fill_segment-as_ bytes ph highest as_' w')) h

  load_segments-IsSound :
      (bytes : List ℕ) (phentsize n ph_off highest : ℕ) (as_ : AddressSpace) (w : World mmu)
      → IsSound as_.regions
      → Sound (load_segments mmu bytes phentsize n ph_off highest as_ w)
  unfolding load_segments
  load_segments-IsSound bytes phentsize zero ph_off highest as_ w s = s
  load_segments-IsSound bytes phentsize (suc n) ph_off highest as_ w s =
      parsed (parse_phdr bytes ph_off) (λ ph. load_segment-IsSound bytes ph highest as_ w s)
        (λ highest' as_' w' s'.
          load_segments-IsSound bytes phentsize n (ph_off + phentsize) highest' as_' w' s')
    where
      Rest : Type 0
      Rest =
          (highest' : ℕ) (as_' : AddressSpace) (w' : World mmu)
          → IsSound as_'.regions
          → Sound (load_segments mmu bytes phentsize n (ph_off + phentsize) highest' as_' w')

      mapped :
          (o : Option (Outcome mmu))
          → Sound o
          → Rest
          → Sound {A = Result ℕ} (elim o [
            | none ↦ none
            | some (err e, as_', w') ↦ some (err e, as_', w')
            | some (ok highest', as_', w') ↦
                load_segments mmu bytes phentsize n (ph_off + phentsize) highest' as_' w'
          ])
      mapped none h rest = tt
      mapped (some (err e, as_', w')) h rest = h
      mapped (some (ok highest', as_', w')) h rest = rest highest' as_' w' h

      parsed :
          (p : Result Phdr)
          → ((ph : Phdr) → Sound (load_segment mmu bytes ph highest as_ w))
          → Rest
          → Sound {A = Result ℕ} (elim p [
            | err e ↦ some (err e, as_, w)
            | ok ph ↦ elim (load_segment mmu bytes ph highest as_ w) [
              | none ↦ none
              | some (err e, as_', w') ↦ some (err e, as_', w')
              | some (ok highest', as_', w') ↦
                  load_segments mmu bytes phentsize n (ph_off + phentsize) highest' as_' w'
            ]
          ])
      parsed (err e) one rest = s
      parsed (ok ph) one rest = mapped (load_segment mmu bytes ph highest as_ w) (one ph) rest

  place_heap-IsSound :
      (highest : ℕ) (as_ : AddressSpace)
      → IsSound as_.regions
      → IsSound (place_heap highest as_).regions
  place_heap-IsSound highest as_ s =
      let same : (place_heap highest as_).regions ≡ as_.regions = ground arith in
      subst IsSound (sym same) s

  -- Loading an executable keeps the regions of the address space disjoint, and none of them becomes
  -- writable and executable at once, whatever the bytes are: on success, and on each error, after
  -- which some segments may be mapped.
  pub load-IsSound :
      (em_target : ℕ) (bytes : List ℕ) (as_ : AddressSpace) (w : World mmu)
      → IsSound as_.regions
      → Sound (load mmu em_target bytes as_ w)
  unfolding load
  load-IsSound em_target bytes as_ w s = checked (check_table em_target bytes)
    where
      placed :
          (h : Ehdr) (o : Option (Outcome mmu))
          → Sound o
          → Sound {A = Result ℕ} (elim o [
            | none ↦ none
            | some (err e, as_', w') ↦ some (err e, as_', w')
            | some (ok highest, as_', w') ↦ some (ok h.e_entry, place_heap highest as_', w')
          ])
      placed h none q = tt
      placed h (some (err e, as_', w')) q = q
      placed h (some (ok highest, as_', w')) q = place_heap-IsSound highest as_' q

      checked :
          (c : Result Ehdr)
          → Sound {A = Result ℕ} (elim c [
            | err e ↦ some (err e, as_, w)
            | ok h ↦ elim (load_segments mmu bytes h.e_phentsize h.e_phnum h.e_phoff 0 as_ w) [
              | none ↦ none
              | some (err e, as_', w') ↦ some (err e, as_', w')
              | some (ok highest, as_', w') ↦ some (ok h.e_entry, place_heap highest as_', w')
            ]
          ])
      checked (err e) = s
      checked (ok h) =
          placed h (load_segments mmu bytes h.e_phentsize h.e_phnum h.e_phoff 0 as_ w)
            (load_segments-IsSound bytes h.e_phentsize h.e_phnum h.e_phoff 0 as_ w s)
