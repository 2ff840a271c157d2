-- ===== src/Capability.antt =====
-- capability/src/lib.rs: the table that maps the tokens of user space to kernel objects.
pub mod Laws
use cyanos.Base.{
  ℕ, ◌+◌, ◌%◌, ◌^◌, Bool, not, ◌&&◌, Option, none, some, List, [], ◌∷◌, ◌==◌, if◌then◌else◌,
  replicate, add32, max_u32, map,
}
use mathlib.Core.Option

abbrev max_caps : ℕ
max_caps = 1024

pub data CapKind : Type 0 where
  port : ℕ → CapKind
  vmo : ℕ → CapKind
  file_desc : ℕ → CapKind

pub record CapSlot : Type 0 where
  pub token : ℕ
  pub kind : CapKind

abbrev pub free_slot : CapSlot
free_slot = record { token = max_u32; kind = CapKind.port 0 }

abbrev pub is_free : CapSlot → Bool
is_free s = s.token == max_u32

pub record CapTable : Type 0 where
  pub slots : List CapSlot
  pub next_tok : ℕ

unfoldable pub new : CapTable
unfolding replicate
new = record { slots = replicate max_caps free_slot; next_tok = 0 }

-- The first free slot, at the index that `position` returns, is overwritten; `none` if none is free.
unfoldable pub put_first : CapSlot → List CapSlot → Option (List CapSlot)
put_first c [] = none
put_first c (s ∷ slots) =
    if is_free s then some (c ∷ slots) else Option.map (λ r. s ∷ r) (put_first c slots)

-- `next_tok` after an allocation.
unfoldable pub bump : ℕ → ℕ
bump tok = if add32 tok 1 == max_u32 then 0 else add32 tok 1

unfoldable pub alloc_cap : CapKind → CapTable → Option ℕ × CapTable
alloc_cap kind t = elim (put_first (record { token = t.next_tok; kind = kind }) t.slots) [
  | none ↦ (none, t)
  | some slots ↦ (some t.next_tok, record { slots = slots; next_tok = bump t.next_tok })
]

abbrev pub holds : ℕ → CapSlot → Bool
holds token s = not (is_free s) && (s.token == token)

unfoldable pub lookup_in : ℕ → List CapSlot → Option CapKind
lookup_in token [] = none
lookup_in token (s ∷ slots) = if holds token s then some s.kind else lookup_in token slots

unfoldable pub lookup_cap : ℕ → CapTable → Option CapKind
unfolding lookup_in
lookup_cap token t = lookup_in token t.slots

unfoldable pub free_in : ℕ → List CapSlot → List CapSlot
free_in token [] = []
free_in token (s ∷ slots) = if holds token s then free_slot ∷ slots else s ∷ free_in token slots

unfoldable pub free_cap : ℕ → CapTable → CapTable
unfolding free_in
free_cap token t = record t { slots = free_in token t.slots }
