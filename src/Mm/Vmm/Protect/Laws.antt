-- ===== src/Mm/Vmm/Protect/Laws.antt =====
-- What `mprotect` of mm/src/vmm.rs does to the regions.
use cyanos.Base.{
  ℕ, ◌+◌, ◌≡◌, refl, inl, inr, Bool, true, false, ◌&&◌, none, some, [], ◌∷◌, arith, if◌then◌else◌,
  Bool-cases, Option-cases, add64,
}
use cyanos.Mm.Mmu.{Mmu, flag_writable, flag_execute}
use cyanos.Mm.Vmm.{
  World, AddressSpace, VmaRegion, Regions, page_down, checked_add, find_in, find, prot_write,
  prot_exec,
}
use cyanos.Mm.Vmm.Unmap.{meets}
use cyanos.Mm.Vmm.Protect.{has, page_flags, protect_slots, mprotect, remap}
use mathlib.Core.Option

-- No region is writable and executable at once.
abbrev pub IsWx : Regions → Type 0
IsWx [] = Unit
IsWx (none ∷ rs) = IsWx rs
IsWx (some r ∷ rs) = ((has r.flags flag_writable && has r.flags flag_execute) ≡ false) × IsWx rs

-- A region as `mprotect` leaves it.
abbrev protected : ℕ → ℕ → ℕ → VmaRegion → VmaRegion
protected addr end prot r =
    if meets addr end r then record r { prot = prot; flags = page_flags prot } else r

page_flags-wx :
    (prot : ℕ)
    → (has prot prot_write && has prot prot_exec) ≡ false
    → (has (page_flags prot) flag_writable && has (page_flags prot) flag_execute) ≡ false
page_flags-wx prot h = go (has prot prot_write) (has prot prot_exec) h
  where
    go :
        (w x : Bool)
        → (w && x) ≡ false
        → (has (1 + 4 + (if w then 2 else 0) + (if x then 8 else 0)) 2
            && has (1 + 4 + (if w then 2 else 0) + (if x then 8 else 0)) 8)
          ≡ false
    go true true h = h
    go true false h = refl
    go false true h = refl
    go false false h = refl

module _ (mmu : Mmu) where
  protect_slots-IsWx :
      (root addr end prot : ℕ) (rs : Regions) (changed : Bool) (t : mmu.Tables)
      → (has prot prot_write && has prot prot_exec) ≡ false
      → IsWx rs
      → IsWx (protect_slots mmu root addr end prot rs changed t).0
  unfolding protect_slots
  protect_slots-IsWx root addr end prot [] changed t h wx = tt
  protect_slots-IsWx root addr end prot (none ∷ rs) changed t h wx =
      protect_slots-IsWx root addr end prot rs changed t h wx
  protect_slots-IsWx root addr end prot (some r ∷ rs) changed t h wx =
      elim (Bool-cases (meets addr end r)) [
        | inl m ↦
            rw (m, protect_slots)
              (
                page_flags-wx prot h,
                protect_slots-IsWx root addr end prot rs true
                    (remap mmu root addr end (page_flags prot) r t) h wx.1,
              )
        | inr m ↦
            rw (m, protect_slots) (wx.0, protect_slots-IsWx root addr end prot rs changed t h wx.1)
      ]

  -- `mprotect` never makes a region writable and executable at once.
  pub mprotect-IsWx :
      (addr len prot : ℕ) (as_ : AddressSpace) (w : World mmu)
      → IsWx as_.regions
      → IsWx (mprotect mmu addr len prot as_ w).1.regions
  unfolding mprotect
  mprotect-IsWx addr len prot as_ w wx =
      elim (Bool-cases (has prot prot_write && has prot prot_exec)) [
        | inl both ↦ rw (both, mprotect) wx
        | inr h ↦ elim (Option-cases (checked_add (page_down addr) (page_down (add64 len 4095)))) [
          | inl over ↦ rw (h, over, mprotect) wx
          | inr (end, fits) ↦
              rw (h, fits, mprotect)
                (protect_slots-IsWx as_.page_table_root (page_down addr) end prot as_.regions false
                  w.tables h wx)
        ]
      ]

  find_in-protect_slots :
      (root addr end prot va : ℕ) (rs : Regions) (changed : Bool) (t : mmu.Tables)
      → find_in va (protect_slots mmu root addr end prot rs changed t).0
        ≡ Option.map (protected addr end prot) (find_in va rs)
  unfolding protect_slots find_in
  find_in-protect_slots root addr end prot va [] changed t = refl
  find_in-protect_slots root addr end prot va (none ∷ rs) changed t =
      find_in-protect_slots root addr end prot va rs changed t
  find_in-protect_slots root addr end prot va (some r ∷ rs) changed t =
      elim (Bool-cases (meets addr end r)) [
        | inl m ↦ ground (
          arith,
          find_in-protect_slots root addr end prot va rs true
              (remap mmu root addr end (page_flags prot) r t),
        )
        | inr m ↦ ground (arith, find_in-protect_slots root addr end prot va rs changed t)
      ]

  -- An `mprotect` that is not refused gives the protection to every region that meets the range, all
  -- of the region included: `find` returns at every address the region that it returned before, so
  -- changed.
  find-mprotect :
      (addr len prot end va : ℕ) (as_ : AddressSpace) (w : World mmu)
      → (has prot prot_write && has prot prot_exec) ≡ false
      → checked_add (page_down addr) (page_down (add64 len 4095)) ≡ some end
      → find va (mprotect mmu addr len prot as_ w).1
        ≡ Option.map (protected (page_down addr) end prot) (find va as_)
  unfolding mprotect find
  find-mprotect addr len prot end va as_ w h fits =
      rw (h, fits, mprotect)
        (find_in-protect_slots as_.page_table_root (page_down addr) end prot va as_.regions false
          w.tables)
