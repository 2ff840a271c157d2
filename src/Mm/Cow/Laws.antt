-- ===== src/Mm/Cow/Laws.antt =====
-- The copy of an address space in mm/src/cow.rs has the regions of the original.
use cyanos.Base.{◌≡◌, none, some, [], ◌∷◌}
use cyanos.Mm.Buddy
use cyanos.Mm.Mmu.{Mmu}
use cyanos.Mm.Buddy.{Buddy}
use cyanos.Mm.Vmm.{VmaRegion, Regions}
use cyanos.Mm.Cow.{bare_copy}
use mathlib.Core.Option

-- A region without its pages.
abbrev pub shape : VmaRegion → VmaRegion
shape = bare_copy

-- The slots of two spaces hold regions of the same shapes.
abbrev SameShapes : Regions → Regions → Type 0
SameShapes [] [] = Unit
SameShapes [] (s ∷ qs) = ⊥
SameShapes (s ∷ rs) [] = ⊥
SameShapes (none ∷ rs) (none ∷ qs) = SameShapes rs qs
SameShapes (none ∷ rs) (some q ∷ qs) = ⊥
SameShapes (some r ∷ rs) (none ∷ qs) = ⊥
SameShapes (some r ∷ rs) (some q ∷ qs) = (shape q ≡ shape r) × SameShapes rs qs
