-- ===== src/Mm/Slab.antt =====
-- mm/src/slab.rs: caches of objects of ten sizes, each with a list of free slots threaded through
-- the first word of every slot, and the buddy allocator for what is larger than a page.
pub mod Classes
pub mod Chain
pub mod Refill
pub mod Handout
use cyanos.Base.{
  ℕ, zero, suc, ◌+◌, ◌-◌, ◌*◌, ◌/◌, ◌^◌, Bool, true, false, ◌||◌, Option, none, some, List, [], ◌∷◌,
  ltb, leb, ◌==◌, if◌then◌else◌, get_or, set, add64, sub64,
}
use cyanos.Mm.Buddy
use cyanos.Mm.Buddy.{Buddy, page_size, max_order}

abbrev pub size_classes : List ℕ
size_classes = 8 ∷ 16 ∷ 32 ∷ 64 ∷ 128 ∷ 256 ∷ 512 ∷ 1024 ∷ 2048 ∷ 4096 ∷ []

-- `SIZE_CLASSES.iter().position(|&s| size <= s)`.
unfoldable pub class_from : ℕ → List ℕ → Option ℕ
class_from size [] = none
class_from size (s ∷ ss) =
    if leb size s then some 0 else elim (class_from size ss) [ none ↦ none | some i ↦ some (suc i) ]

unfoldable pub size_class_idx : ℕ → Option ℕ
unfolding class_from
size_class_idx size = class_from size size_classes

-- `while cap < pages { cap <<= 1; order += 1; }`, on fuel.
unfoldable pub order_loop : ℕ → ℕ → ℕ → ℕ → ℕ
order_loop zero pages cap order = order
order_loop (suc fuel) pages cap order =
    let rest = order_loop fuel pages (cap * 2) (order + 1) in if ltb cap pages then rest else order

-- The request is at most `2 ^ 10` pages when the loop runs: ten rounds are enough.
unfoldable pub pages_to_order : ℕ → Option ℕ
pages_to_order pages =
    if ltb (2 ^ (max_order - 1)) pages then none else some (order_loop max_order pages 1 0)

-- Memory, as far as the allocator writes it: the word at an address.
abbrev pub Memory : Type 0
Memory = ℕ → ℕ

abbrev pub write : ℕ → ℕ → Memory → Memory
write addr v m a = if a == addr then v else m a

pub record Cache : Type 0 where
  pub obj_size : ℕ
  pub free_head : ℕ

-- The loop of `refill`, with `n` slots left to push.
unfoldable pub push_slots : ℕ → ℕ → ℕ → ℕ → Memory → ℕ × Memory
push_slots zero size addr head m = (head, m)
push_slots (suc n) size addr head m = push_slots n size (addr + size) addr (write addr head m)

-- The allocator's state: the caches, the memory, the page allocator and the offset of the direct map.
pub record Slab : Type 0 where
  pub caches : List Cache
  pub memory : Memory
  pub pages : Buddy
  pub hhdm_offset : ℕ

-- `phys_to_virt` and `virt_to_phys` of mm/src/lib.rs.
abbrev pub phys_to_virt : ℕ → Slab → ℕ
phys_to_virt phys s = add64 phys s.hhdm_offset

abbrev pub virt_to_phys : ℕ → Slab → ℕ
virt_to_phys virt s = sub64 virt s.hhdm_offset

abbrev pub no_cache : Cache
no_cache = record { obj_size = 8; free_head = 0 }

abbrev pub cache_at : ℕ → Slab → Cache
cache_at idx s = get_or s.caches idx no_cache

abbrev pub put_cache : ℕ → Cache → Slab → Slab
put_cache idx c s = record s { caches = set s.caches idx c }

-- `Cache::refill`. Outer `none`: a panic of the page allocator.
unfoldable pub refill : ℕ → Slab → Option (Bool × Slab)
refill idx s = elim (Buddy.alloc 0 s.pages) [
  | none ↦ none
  | some (none, b) ↦ some (false, record s { pages = b })
  | some (some phys, b) ↦
      let c = cache_at idx s in
      let (head, m) =
        push_slots (page_size / c.obj_size) c.obj_size (phys_to_virt phys s) c.free_head s.memory in
      some
        (true, put_cache idx (record c { free_head = head }) (record s { memory = m; pages = b }))
]

-- What `Cache::alloc` does once the list is not empty.
unfoldable pub pop_slot : ℕ → Slab → ℕ × Slab
pop_slot idx s =
    let c = cache_at idx s in
    (c.free_head, put_cache idx (record c { free_head = s.memory c.free_head }) s)

unfoldable pub cache_alloc : ℕ → Slab → Option (Option ℕ × Slab)
cache_alloc idx s =
    if (cache_at idx s).free_head == 0
    then elim (refill idx s) [
      | none ↦ none
      | some (false, s') ↦ some (none, s')
      | some (true, s') ↦ let (p, s'') = pop_slot idx s' in some (some p, s'')
    ]
    else let (p, s') = pop_slot idx s in some (some p, s')

unfoldable pub cache_free : ℕ → ℕ → Slab → Slab
cache_free idx ptr s =
    let c = cache_at idx s in
    put_cache idx (record c { free_head = ptr })
      (record s { memory = write ptr c.free_head s.memory })

-- The pages of a request: `(size + PAGE_SIZE - 1) / PAGE_SIZE`.
abbrev pub pages_for : ℕ → ℕ
pages_for size = sub64 (add64 size page_size) 1 / page_size

-- `NonNull::dangling()` of a byte pointer is the address 1.
unfoldable pub alloc : ℕ → Slab → Option (Option ℕ × Slab)
alloc size s = if size == 0 then some (some 1, s) else elim (size_class_idx size) [
  | some idx ↦ cache_alloc idx s
  | none ↦ elim (pages_to_order (pages_for size)) [
    | none ↦ some (none, s)
    | some order ↦ elim (Buddy.alloc order s.pages) [
      | none ↦ none
      | some (none, b) ↦ some (none, record s { pages = b })
      | some (some p, b) ↦ some (some (phys_to_virt p s), record s { pages = b })
    ]
  ]
]

unfoldable pub free : ℕ → ℕ → Slab → Option Slab
free ptr size s = if size == 0 || ptr == 0 then some s else elim (size_class_idx size) [
  | some idx ↦ some (cache_free idx ptr s)
  | none ↦ elim (pages_to_order (pages_for size)) [
    | none ↦ some s
    | some order ↦ elim (Buddy.free (virt_to_phys ptr s) order s.pages) [
      | none ↦ none
      | some b ↦ some (record s { pages = b })
    ]
  ]
]
