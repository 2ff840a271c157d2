-- ===== src/Mm/Vmm/Fault/Laws.antt =====
-- What a handled page fault does to the translation of mm/src/vmm.rs.
use cyanos.Base.{
  ℕ, ◌≡◌, subst, inl, inr, true, false, none, some, [], ◌∷◌, arith, if◌then◌else◌, Bool-cases, zero,
  suc, ◌+◌, ◌-◌, ◌/◌, ◌%◌, ◌≤◌, refl, sym, ◌∙◌, List, ℕ_discrete, ◌==◌, ==_true, ==_false, length,
  get_or, length-replicate, get_or-set_self, get_or-set_ne, get_or-replicate, ◌≢◌, ◌&&◌, ap, Option,
}
use cyanos.Base.Bits.Mask.{and_not-page}
use cyanos.Mm.Buddy
use cyanos.Mm.Buddy.{Buddy, page_size}
use cyanos.Mm.Vmm.{
  World, AddressSpace, VmaRegion, Regions, find, find_in, virt_to_phys, translate, covers,
  page_down, Mmu,
}
use cyanos.Mm.Vmm.Map.Disjoint.{IsDisjoint, ApartFrom, Apart}
use cyanos.Mm.Vmm.Fault.{
  grow, back_page, change_first, page_at, demand_page, handle_user_page_fault,
}

find_in-ApartFrom :
    (s r : VmaRegion) (va : ℕ) (rs : Regions) → ApartFrom s rs → find_in va rs ≡ some r → Apart s r
unfolding find_in
find_in-ApartFrom s r va [] a e = absurd (cc)
find_in-ApartFrom s r va (none ∷ rs) a e = find_in-ApartFrom s r va rs a e
find_in-ApartFrom s r va (some q ∷ rs) a e = elim (Bool-cases (covers va q)) [
  | inl c ↦ subst (λ x. Apart s x) (here c) a.0
  | inr o ↦ find_in-ApartFrom s r va rs a.1 (rw (o) at e)
]
  where
    here : covers va q ≡ true → q ≡ r
    here c = ground arith

find_in-covers :
    (va : ℕ) (r : VmaRegion) (rs : Regions) → find_in va rs ≡ some r → covers va r ≡ true
unfolding find_in
find_in-covers va r [] e = absurd (cc)
find_in-covers va r (none ∷ rs) e = find_in-covers va r rs e
find_in-covers va r (some q ∷ rs) e = elim (Bool-cases (covers va q)) [
  | inl c ↦ ground arith
  | inr o ↦ find_in-covers va r rs (rw (o) at e)
]

not_both : (s r : VmaRegion) (va : ℕ) → Apart s r → covers va r ≡ true → covers va s ≡ false
not_both s r va h c = ground arith

find_in-change_first :
    (fault_va va : ℕ) (r : VmaRegion) (f : VmaRegion → VmaRegion) (rs : Regions)
    → ((q : VmaRegion) → ((f q).start ≡ q.start) × ((f q).end ≡ q.end))
    → IsDisjoint rs
    → find_in fault_va rs ≡ some r
    → find_in va (change_first fault_va f rs) ≡ (if covers va r then some (f r) else find_in va rs)
unfolding find_in change_first
find_in-change_first fault_va va r f [] keep d e = absurd (cc)
find_in-change_first fault_va va r f (none ∷ rs) keep d e =
    find_in-change_first fault_va va r f rs keep d e
find_in-change_first fault_va va r f (some s ∷ rs) keep d e =
    elim (Bool-cases (covers fault_va s)) [
      | inl c ↦ ground (arith, keep s)
      | inr o ↦
          let e' : find_in fault_va rs ≡ some r = rw (o) at e in
          let ih = find_in-change_first fault_va va r f rs keep d.1 e' in
          let apart = find_in-ApartFrom s r fault_va rs d.0 e' in
          elim (Bool-cases (covers va r)) [
            | inl c ↦ ground (arith, not_both s r va apart c)
            | inr c ↦ ground arith
          ]
    ]

-- In a disjoint space, `find` returns the same region at every address of it.
find_in_same :
    (fault_va va : ℕ) (r : VmaRegion) (rs : Regions)
    → IsDisjoint rs
    → find_in fault_va rs ≡ some r
    → covers va r ≡ true
    → find_in va rs ≡ some r
unfolding find_in
find_in_same fault_va va r [] d e c = absurd (cc)
find_in_same fault_va va r (none ∷ rs) d e c = find_in_same fault_va va r rs d e c
find_in_same fault_va va r (some s ∷ rs) d e c = elim (Bool-cases (covers fault_va s)) [
  | inl h ↦ ground arith
  | inr o ↦
      let e' : find_in fault_va rs ≡ some r = rw (o) at e in
      rw (not_both s r va (find_in-ApartFrom s r fault_va rs d.0 e') c)
        (find_in_same fault_va va r rs d.1 e' c)
]

get_or-grow : (n j : ℕ) (pages : List ℕ) → get_or (grow n pages) j 0 ≡ get_or pages j 0
unfolding grow
get_or-grow n j [] = get_or-replicate n j 0
get_or-grow zero j (p ∷ pages) = refl
get_or-grow (suc n) zero (p ∷ pages) = refl
get_or-grow (suc n) (suc j) (p ∷ pages) = get_or-grow n j pages

length-grow : (n : ℕ) (pages : List ℕ) → n ≤ length (grow n pages)
unfolding grow
length-grow n [] = omega (arith, length-replicate {A = ℕ} n 0)
length-grow zero (p ∷ pages) = omega arith
length-grow (suc n) (p ∷ pages) = omega (arith, length-grow n pages)

page_at-back_page :
    (page_idx phys j : ℕ) (r : VmaRegion)
    → page_at (back_page page_idx phys r) j ≡ (if j == page_idx then phys else page_at r j)
unfolding back_page
page_at-back_page page_idx phys j r = elim (ℕ_discrete page_idx j) [
  | yes e ↦
      rw (==_true j page_idx (sym e), sym e)
        (get_or-set_self (grow (page_idx + 1) r.lazy_pages) page_idx phys 0
          (omega (arith, length-grow (page_idx + 1) r.lazy_pages)))
  | no n ↦ rw (==_false j page_idx (λ e. n (sym e))) (
      get_or-set_ne (grow (page_idx + 1) r.lazy_pages) phys 0 n
      ∙ get_or-grow (page_idx + 1) j r.lazy_pages)
]

-- Of two addresses in a region that starts on a page boundary, the page index is the same exactly
-- when they are on the same page.
same_page :
    (start va fault_va : ℕ)
    → start % page_size ≡ 0
    → start ≤ va
    → start ≤ fault_va
    → ((va - start) / page_size == (page_down fault_va - start) / page_size)
      ≡ (va / page_size == fault_va / page_size)
same_page start va fault_va a h h' = rw (and_not-page fault_va) (ground (arith))

translate-back_page :
    (va fault_va phys : ℕ) (r : VmaRegion)
    → r.lazy ≡ true
    → r.start % page_size ≡ 0
    → covers va r ≡ true
    → covers fault_va r ≡ true
    → phys ≢ 0
    → translate va (back_page ((page_down fault_va - r.start) / page_size) phys r) ≡ (
        if va / page_size == fault_va / page_size
        then some (phys + va % page_size)
        else translate va r)
unfolding back_page
translate-back_page va fault_va phys r lazy a c c' n =
    let offset : (va - r.start) % page_size ≡ va % page_size = ground (arith, c, a) in
    let page = same_page r.start va fault_va a (ground (arith)) (ground (arith)) in
    let backed =
      page_at-back_page ((page_down fault_va - r.start) / page_size) phys
        ((va - r.start) / page_size) r in
    rw (lazy) (rw (backed) (rw (page, offset) (ground arith)))

abbrev translated : ℕ → Option VmaRegion → Option ℕ
translated va o = elim o [ none ↦ none | some r ↦ translate va r ]

virt_to_phys-find :
    (va : ℕ) (as_ : AddressSpace) (o : Option VmaRegion)
    → find va as_ ≡ o
    → virt_to_phys va as_ ≡ translated va o
unfolding virt_to_phys
virt_to_phys-find va as_ o e = ap (translated va) e

keeps_bounds :
    (fault_va phys : ℕ) (r q : VmaRegion)
    → ((back_page ((page_down fault_va - r.start) / page_size) phys q).start ≡ q.start)
      × ((back_page ((page_down fault_va - r.start) / page_size) phys q).end ≡ q.end)
unfolding back_page
keeps_bounds fault_va phys r q = (refl, refl)

module _ (mmu : Mmu) where
  handled_lem :
      (fault_va : ℕ) (as_ : AddressSpace) (w : World mmu) (r : VmaRegion) (phys : ℕ) (b : Buddy)
      (as_' : AddressSpace) (w' : World mmu)
      → find fault_va as_ ≡ some r
      → Buddy.alloc 0 w.pages ≡ some (some phys, b)
      → handle_user_page_fault mmu fault_va as_ w ≡ some (true, as_', w')
      → (r.lazy ≡ true)
        × (as_' ≡ record as_ {
          regions =
              change_first fault_va
                (back_page ((page_down fault_va - r.start) / page_size) phys)
                as_.regions;
        })
  unfolding handle_user_page_fault demand_page
  handled_lem fault_va as_ w r phys b as_' w' ef ea e = ground arith

  -- A page fault in a lazy region that starts on a page boundary, once handled with a page at an
  -- address other than 0, makes every address of the faulting page in the region translate to the
  -- page that the allocator gave, and changes the translation of no other address of a space with
  -- disjoint regions.
  pub handle_user_page_fault-virt_to_phys :
      (fault_va va : ℕ) (as_ : AddressSpace) (w : World mmu) (r : VmaRegion) (phys : ℕ) (b : Buddy)
      (as_' : AddressSpace) (w' : World mmu)
      → IsDisjoint as_.regions
      → find fault_va as_ ≡ some r
      → r.start % page_size ≡ 0
      → Buddy.alloc 0 w.pages ≡ some (some phys, b)
      → phys ≢ 0
      → handle_user_page_fault mmu fault_va as_ w ≡ some (true, as_', w')
      → virt_to_phys va as_' ≡ (
          if covers va r && (va / page_size == fault_va / page_size)
          then some (phys + va % page_size)
          else virt_to_phys va as_)
  unfolding find
  handle_user_page_fault-virt_to_phys fault_va va as_ w r phys b as_' w' d ef a ea n e =
      let (lazy, same) = handled_lem fault_va as_ w r phys b as_' w' ef ea e in
      let f : VmaRegion → VmaRegion = back_page ((page_down fault_va - r.start) / page_size) phys in
      let found =
        find_in-change_first fault_va va r f as_.regions (keeps_bounds fault_va phys r) d ef in
      let c' = find_in-covers fault_va r as_.regions ef in
      let moved = ap (find va) same ∙ found in
      elim (Bool-cases (covers va r)) [
        | inl c ↦
            let here =
              virt_to_phys-find va as_ (some r) (find_in_same fault_va va r as_.regions d ef c) in
            let there =
              virt_to_phys-find va as_' (some (f r))
                (moved ∙ ap (λ t. if t then some (f r) else find va as_) c) in
            rw (there, here, c) (translate-back_page va fault_va phys r lazy a c c' n)
        | inr o ↦ rw (o) (
            virt_to_phys-find va as_' (find va as_)
              (moved ∙ ap (λ t. if t then some (f r) else find va as_) o)
            ∙ sym (virt_to_phys-find va as_ (find va as_) refl))
      ]
