-- ===== src/Mm/Buddy.antt =====
-- mm/src/buddy.rs: the allocator of blocks of 2 ^ order pages. Each order has room for the address
-- of one free block. A failed `assert!` is a panic of the kernel, here `none`.
pub mod Pages
pub mod Alloc
pub mod Free
pub mod RoundTrip
use cyanos.Base.{
  ℕ, zero, suc, ◌+◌, ◌-◌, ◌*◌, ◌/◌, ◌%◌, ◌^◌, min, bit_xor, Bool, false, not, Option, none, some,
  List, [], ◌∷◌, ltb, leb, ◌==◌, if◌then◌else◌, get_or, set, replicate, add64, sub64,
}
use Prim.Native.Nat.{pred}
use cyanos.Util.{align_up, align_down}

abbrev pub page_size : ℕ
page_size = 4096

abbrev pub max_order : ℕ
max_order = 11

-- The statics of the module: `FREE_LISTS`, of which only the heads are data, and the two counters.
pub record Buddy : Type 0 where
  pub free_lists : List (Option ℕ)
  pub total_pages : ℕ
  pub free_pages : ℕ

unfoldable pub empty : Buddy
unfolding replicate
empty = record { free_lists = replicate max_order none; total_pages = 0; free_pages = 0 }

-- `lists[o].head`.
abbrev pub head_at : List (Option ℕ) → ℕ → Option ℕ
head_at lists o = get_or lists o none

-- `PAGE_SIZE << order`.
abbrev pub block_size : ℕ → ℕ
block_size order = page_size * 2 ^ order

-- `for split in (order..o).rev()`, with `k` orders left to split.
unfoldable pub split_down : ℕ → ℕ → ℕ → List (Option ℕ) → List (Option ℕ)
split_down order zero addr lists = lists
split_down order (suc k) addr lists =
    split_down order k addr (set lists (order + k) (some (addr + block_size (order + k))))

-- `for o in order..MAX_ORDER`, with `n` orders left from `o` on.
unfoldable pub alloc_from : ℕ → ℕ → ℕ → List (Option ℕ) → Option (ℕ × List (Option ℕ))
alloc_from order zero o lists = none
alloc_from order (suc n) o lists = elim (head_at lists o) [
  | none ↦ alloc_from order n (o + 1) lists
  | some addr ↦ some (addr, split_down order (o - order) addr (set lists o none))
]

unfoldable pub alloc : ℕ → Buddy → Option (Option ℕ × Buddy)
alloc order b =
    if ltb order max_order
    then some (elim (alloc_from order (max_order - order) order b.free_lists) [
      | none ↦ (none, b)
      | some (addr, lists) ↦
          (some addr, record b { free_lists = lists; free_pages = sub64 b.free_pages (2 ^ order) })
    ])
    else none

abbrev pub is_some_of : ℕ → Option ℕ → Bool
is_some_of a none = false
is_some_of a (some b) = b == a

-- `current ^ (PAGE_SIZE << current_order)`.
unfoldable pub buddy_of : ℕ → ℕ → ℕ
buddy_of current order = bit_xor current (block_size order)

-- The loop of `free` with `n` orders left above `order`, and the write after it.
unfoldable pub merge : ℕ → ℕ → ℕ → List (Option ℕ) → List (Option ℕ)
merge zero order current lists = set lists order (some current)
merge (suc n) order current lists =
    let rest = merge n (order + 1) (min current (buddy_of current order)) (set lists order none) in
    if is_some_of (buddy_of current order) (head_at lists order)
    then rest
    else set lists order (some current)

unfoldable pub free : ℕ → ℕ → Buddy → Option Buddy
free addr order b =
    if ltb order max_order
    then some (record b {
      free_lists = merge (max_order - 1 - order) order addr b.free_lists;
      free_pages = add64 b.free_pages (2 ^ order);
    })
    else none

-- `usize::BITS - 1 - x.leading_zeros()`, the index of the highest set bit; `k` bits are looked at.
unfoldable highest_bit : ℕ → ℕ → ℕ
highest_bit zero x = 0
highest_bit (suc k) x = if ltb x 2 then 0 else suc (highest_bit k (x / 2))

-- `trailing_zeros` of a 64-bit word, of which `k` bits are left to look at.
unfoldable pub trailing_zeros : ℕ → ℕ → ℕ
trailing_zeros zero x = 0
trailing_zeros (suc k) x = if x % 2 == 0 then suc (trailing_zeros k (x / 2)) else 0

-- The order of the block that the walk of `init_from_map` frees at `addr`.
unfoldable block_order : ℕ → ℕ → ℕ
block_order addr end =
    let remaining_pages = (end - addr) / page_size in
    let largest = min (max_order - 1) (highest_bit 64 remaining_pages) in
    min largest (min (trailing_zeros 64 (addr / page_size)) (max_order - 1))

-- The walk over one region, on fuel: each round takes at least a page.
unfoldable release_region : ℕ → ℕ → ℕ → Buddy → Option Buddy
release_region zero addr end b = some b
release_region (suc fuel) addr end b =
    let order = block_order addr end in
    let rest : Option Buddy = elim (free addr order b) [
      | none ↦ none
      | some b' ↦ release_region fuel (addr + block_size order) end b'
    ] in
    if ltb addr end then rest else some b

-- `boot::MemoryRegion`, with the test `kind == Available`.
record MemoryRegion : Type 0 where
  pub base : ℕ
  pub length : ℕ
  pub available : Bool

unfoldable add_region : MemoryRegion → Buddy → Option Buddy
add_region r b =
    let start = align_up r.base (block_size (max_order - 1)) in
    let end = align_down (add64 r.base r.length) page_size in
    let rest = release_region ((end - start) / page_size + 1) start end b in
    if not r.available then some b else if leb end start then some b else rest

unfoldable add_regions : List MemoryRegion → Buddy → Option Buddy
add_regions [] b = some b
add_regions (r ∷ rs) b = elim (add_region r b) [ none ↦ none | some b' ↦ add_regions rs b' ]

unfoldable init_from_map : List MemoryRegion → Buddy → Option Buddy
init_from_map rs b = elim (add_regions rs b) [
  | none ↦ none
  | some b' ↦ some (record b' { total_pages = b'.free_pages })
]
