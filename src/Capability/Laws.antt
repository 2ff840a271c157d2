-- ===== src/Capability/Laws.antt =====
-- The capability table of capability/src/lib.rs is a map from tokens to kernel objects.
use cyanos.Base.{
  ℕ, ◌<◌, ◌≡◌, refl, sym, ◌≢◌, inl, inr, none, some, List, [], ◌∷◌, arith, ◌==◌, if◌then◌else◌,
  Option-cases, max_u32,
}
use cyanos.Capability.{
  CapTable, CapKind, CapSlot, holds, put_first, bump, alloc_cap, lookup_in, lookup_cap, free_in,
  free_cap,
}

lookup_in-put_first :
    (c : CapSlot) (other : ℕ) (slots slots' : List CapSlot)
    → put_first c slots ≡ some slots'
    → lookup_in c.token slots ≡ none
    → lookup_in other slots' ≡ (if holds other c then some c.kind else lookup_in other slots)
unfolding put_first lookup_in
lookup_in-put_first c other [] slots' e new = absurd (cc)
lookup_in-put_first c other (s ∷ slots) slots' e new = elim (Option-cases (put_first c slots)) [
  | inl full ↦ ground arith
  | inr (r, room) ↦ ground (arith, lookup_in-put_first c other slots r room)
]

-- A capability that is allocated under a token that is not in use and not the sentinel is found by
-- its token, and the lookups of the other tokens return what they returned before.
lookup_cap-alloc_cap :
    (kind : CapKind) (tok other : ℕ) (t : CapTable)
    → lookup_cap t.next_tok t ≡ none
    → t.next_tok ≢ max_u32
    → (alloc_cap kind t).0 ≡ some tok
    → lookup_cap other (alloc_cap kind t).1
      ≡ (if tok == other then some kind else lookup_cap other t)
unfolding alloc_cap lookup_cap
lookup_cap-alloc_cap kind tok other t new small e =
    elim (Option-cases (put_first (record { token = t.next_tok; kind = kind }) t.slots)) [
      | inl full ↦ absurd (ground arith)
      | inr (r, room) ↦
          let same : t.next_tok ≡ tok = ground arith in
          rw (room, alloc_cap, sym same)
            (ground (
              arith,
              lookup_in-put_first (record { token = t.next_tok; kind = kind }) other t.slots r room
                  new,
            ))
    ]

-- The token that `alloc_cap` gives next is never the sentinel of a free slot.
bump-max : (tok : ℕ) → tok < max_u32 → bump tok < max_u32
unfolding bump
bump-max tok h = ground arith

free_in-misses :
    (token : ℕ) (slots : List CapSlot) → lookup_in token slots ≡ none → free_in token slots ≡ slots
unfolding free_in lookup_in
free_in-misses token [] e = refl
free_in-misses token (s ∷ slots) e = ground (arith, free_in-misses token slots)

lookup_in-free_in :
    (c : CapSlot) (other : ℕ) (slots slots' : List CapSlot)
    → put_first c slots ≡ some slots'
    → lookup_in c.token slots ≡ none
    → c.token ≢ max_u32
    → lookup_in other (free_in c.token slots') ≡ lookup_in other slots
unfolding put_first lookup_in free_in
lookup_in-free_in c other [] slots' e new small = absurd (cc)
lookup_in-free_in c other (s ∷ slots) slots' e new small = elim (Option-cases (put_first c slots)) [
  | inl full ↦ ground (arith)
  | inr (r, room) ↦ ground (arith, lookup_in-free_in c other slots r room)
]

-- A capability that is allocated under a token that is not in use and not the sentinel, and revoked
-- again, leaves every lookup as it was.
free_cap-alloc_cap :
    (kind : CapKind) (tok other : ℕ) (t : CapTable)
    → lookup_cap t.next_tok t ≡ none
    → t.next_tok ≢ max_u32
    → (alloc_cap kind t).0 ≡ some tok
    → lookup_cap other (free_cap tok (alloc_cap kind t).1) ≡ lookup_cap other t
unfolding alloc_cap lookup_cap free_cap
free_cap-alloc_cap kind tok other t new small e =
    elim (Option-cases (put_first (record { token = t.next_tok; kind = kind }) t.slots)) [
      | inl full ↦ absurd (ground arith)
      | inr (r, room) ↦
          let same : t.next_tok ≡ tok = ground arith in
          rw (room, alloc_cap, sym same)
            (lookup_in-free_in (record { token = t.next_tok; kind = kind }) other t.slots r room new
              small)
    ]
