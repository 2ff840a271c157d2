-- ===== src/Mm/Tests.antt =====
-- The theorems on memory at concrete allocators and address spaces.
use cyanos.Base.{
  ℕ, ◌%◌, ◌≡◌, refl, sym, ap, ap₂, ◌∙◌, Option, none, some, List, [], ◌∷◌, arith, ℕ_discrete, set,
  replicate, length-set, length-replicate, get_or-set_ne, get_or-replicate,
}
use cyanos.Mm.Buddy
use cyanos.Mm.Buddy.{
  Buddy, alloc, free, head_at, block_size, max_order, page_size, alloc_from, split_down, buddy_of,
}
use cyanos.Mm.Buddy.Alloc.{HasLists, Allocated, alloc_lem}
use cyanos.Mm.Buddy.RoundTrip.{free-alloc}
use cyanos.Mm.Slab
use cyanos.Mm.Slab.{Slab, cache_free, size_class_idx}

-- One free block of 1024 pages, at 4 MiB.
abbrev lists : List (Option ℕ)
lists = set (replicate max_order none) 10 (some 4194304)

abbrev one_block : Buddy
one_block = record { free_lists = lists; total_pages = 1024; free_pages = 1024 }

one_block-HasLists : HasLists lists
one_block-HasLists =
    length-set (replicate max_order none) 10 (some 4194304)
    ∙ length-replicate {A = Option ℕ} max_order none

aligned : (o a : ℕ) → head_at lists o ≡ some a → a % block_size o ≡ 0
unfolding replicate
aligned o a e = elim (ℕ_discrete 10 o) [
  | yes same ↦
      let there : head_at lists o ≡ some 4194304 = ap (head_at lists) (sym same) in
      let value : 4194304 ≡ a = ground (arith) in
      ap₂ (λ x y. x % block_size y) (sym value) (sym same)
  | no other ↦
      let empty : head_at lists o ≡ none =
        get_or-set_ne (replicate max_order none) (some 4194304) none other
        ∙ get_or-replicate {A = Option ℕ} max_order o none in
      absurd (cc)
]

-- What is left once the page at 4 MiB is taken.
abbrev taken : Buddy
taken = record {
  free_lists =
      some 4198400
      ∷ some 4202496
      ∷ some 4210688
      ∷ some 4227072
      ∷ some 4259840
      ∷ some 4325376
      ∷ some 4456448
      ∷ some 4718592
      ∷ some 5242880
      ∷ some 6291456
      ∷ none
      ∷ [];
  total_pages = 1024;
  free_pages = 1023;
}

takes_page : alloc 0 one_block ≡ some (some 4194304, taken)
unfolding alloc alloc_from split_down replicate
takes_page = refl

free-alloc_example : free 4194304 0 taken ≡ some one_block
free-alloc_example =
    free-alloc 0 4194304 one_block taken one_block-HasLists aligned (omega arith) (omega arith)
      takes_page

alloc_lem_example : Allocated 3 one_block (alloc 3 one_block)
alloc_lem_example = alloc_lem 3 one_block one_block-HasLists

-- One cache with one free slot.
abbrev one_slot : Slab
one_slot = record {
  caches = (record { obj_size = 2048; free_head = 8192 }) ∷ [];
  memory = λ a. 0;
  pages = Buddy.empty;
  hhdm_offset = 0;
}
