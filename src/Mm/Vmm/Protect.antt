-- ===== src/Mm/Vmm/Protect.antt =====
-- `mprotect` of mm/src/vmm.rs.
pub mod Laws
use cyanos.Base.{
  ℕ, zero, suc, ◌+◌, ◌-◌, ◌*◌, ◌/◌, bit_and, Bool, true, false, not, ◌&&◌, none, some, List, [],
  ◌∷◌, ltb, leb, ◌==◌, if◌then◌else◌, add64,
}
use cyanos.Mm.Mmu.{flag_present, flag_writable, flag_user, flag_execute, Mmu}
use cyanos.Mm.Vmm.{
  World, AddressSpace, VmaRegion, Regions, page_down, checked_add, prot_write, prot_exec, page_size,
}
use cyanos.Mm.Vmm.Fault.{page_at}
use cyanos.Mm.Vmm.Unmap.{meets}

-- `prot & flag != 0`.
abbrev pub has : ℕ → ℕ → Bool
has prot flag = not (bit_and prot flag == 0)

abbrev pub page_flags : ℕ → ℕ
page_flags prot =
    flag_present
    + flag_user
    + (if has prot prot_write then flag_writable else 0)
    + (if has prot prot_exec then flag_execute else 0)

module _ (mmu : Mmu) where
  -- One page of a region, mapped again with the new flags if it is in the range. The result of
  -- `map_page` is not looked at.
  abbrev remap_page : ℕ → ℕ → ℕ → ℕ → ℕ → ℕ → mmu.Tables → mmu.Tables
  remap_page root addr end flags page_va phys t =
      if leb addr page_va && ltb page_va end then (mmu.map_page root page_va phys flags t).1 else t

  -- The loop over `lazy_pages`, from page `i` on.
  unfoldable remap_lazy : ℕ → ℕ → ℕ → ℕ → ℕ → ℕ → List ℕ → mmu.Tables → mmu.Tables
  remap_lazy root addr end flags start i [] t = t
  remap_lazy root addr end flags start i (phys ∷ pages) t =
      remap_lazy root addr end flags start (i + 1) pages
        (if phys == 0 then t else remap_page root addr end flags (start + i * page_size) phys t)

  -- The loop over the `n` pages of an eager region, from page `i` on.
  unfoldable remap_eager : ℕ → ℕ → ℕ → ℕ → ℕ → ℕ → ℕ → ℕ → mmu.Tables → mmu.Tables
  remap_eager root addr end flags start phys zero i t = t
  remap_eager root addr end flags start phys (suc n) i t =
      remap_eager root addr end flags start phys n (i + 1)
        (remap_page root addr end flags (start + i * page_size) (phys + i * page_size) t)

  unfoldable pub remap : ℕ → ℕ → ℕ → ℕ → VmaRegion → mmu.Tables → mmu.Tables
  unfolding remap_lazy remap_eager
  remap root addr end flags r t =
      if r.lazy
      then remap_lazy root addr end flags r.start 0 r.lazy_pages t
      else if r.phys == 0
      then t
      else remap_eager root addr end flags r.start r.phys ((r.end - r.start) / page_size) 0 t

  -- `for slot in self.regions.iter_mut()`; the Boolean is `changed`.
  unfoldable pub protect_slots :
      ℕ → ℕ → ℕ → ℕ → Regions → Bool → mmu.Tables → Regions × Bool × mmu.Tables
  unfolding remap
  protect_slots root addr end prot [] changed t = ([], changed, t)
  protect_slots root addr end prot (none ∷ rs) changed t =
      let (rs', changed', t') = protect_slots root addr end prot rs changed t in
      (none ∷ rs', changed', t')
  protect_slots root addr end prot (some r ∷ rs) changed t = elim (meets addr end r) [
    | false ↦
        let (rs', changed', t') = protect_slots root addr end prot rs changed t in
        (some r ∷ rs', changed', t')
    | true ↦
        let (rs', changed', t') =
          protect_slots root addr end prot rs true (remap root addr end (page_flags prot) r t) in
        (some (record r { prot = prot; flags = page_flags prot }) ∷ rs', changed', t')
  ]

  unfoldable pub mprotect : ℕ → ℕ → ℕ → AddressSpace → World mmu → Bool × AddressSpace × World mmu
  unfolding protect_slots
  mprotect addr len prot as_ w =
      if has prot prot_write && has prot prot_exec
      then (false, as_, w)
      else elim (checked_add (page_down addr) (page_down (add64 len 4095))) [
        | none ↦ (false, as_, w)
        | some end ↦
            let (rs, changed, t) =
              protect_slots as_.page_table_root (page_down addr) end prot as_.regions false
                w.tables in
            (
              changed,
              record as_ { regions = rs },
              record w { tables = (if changed then mmu.tlb_shootdown_all t else t) },
            )
      ]
