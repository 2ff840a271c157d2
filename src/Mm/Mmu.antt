-- ===== src/Mm/Mmu.antt =====
-- mm/src/paging.rs: the interface to the page tables, which each architecture's crate implements.
use cyanos.Base.{ℕ, Bool}

pub record Mmu : Type 1 where
  -- The page tables of all address spaces, with the translations that the processors cache.
  pub Tables : Type 0
  -- `map_page`: root, virtual page, physical page, flags; false if a table node cannot be allocated.
  pub map_page : ℕ → ℕ → ℕ → ℕ → Tables → Bool × Tables
  pub unmap_page : ℕ → ℕ → Tables → Tables
  pub tlb_shootdown_all : Tables → Tables

-- The bits of `PageFlags`.
abbrev pub flag_present : ℕ
flag_present = 1

abbrev pub flag_writable : ℕ
flag_writable = 2

abbrev pub flag_user : ℕ
flag_user = 4

abbrev pub flag_execute : ℕ
flag_execute = 8
