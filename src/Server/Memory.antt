-- ===== src/Server/Memory.antt =====
-- The memory of the process that calls a server: the server reads and writes it through the
-- pointers in the arguments, with `copy_nonoverlapping`, `read` and `write`.
use cyanos.Base.{
  ℕ, zero, suc, ◌+◌, ◌≤◌, ◌<◌, ◌≡◌, refl, ap, ap₂, ◌∙◌, List, [], ◌∷◌, arith, ◌==◌, if◌then◌else◌,
  length,
}
use cyanos.Server.Wire.{to_le, from_le}

-- A byte for each address.
abbrev pub UserMemory : Type 0
UserMemory = ℕ → ℕ

abbrev poke : ℕ → ℕ → UserMemory → UserMemory
poke p b m a = if a == p then b else m a

-- `n` bytes from a pointer.
unfoldable pub load : ℕ → ℕ → UserMemory → List ℕ
load zero p m = []
load (suc n) p m = m p ∷ load n (p + 1) m

unfoldable pub store : ℕ → List ℕ → UserMemory → UserMemory
store p [] m = m
store p (b ∷ bs) m = poke p b (store (p + 1) bs m)

-- A little-endian number of `n` bytes.
unfoldable pub load_word : ℕ → ℕ → UserMemory → ℕ
load_word n p m = from_le (load n p m)

unfoldable pub store_word : ℕ → ℕ → ℕ → UserMemory → UserMemory
store_word n p v m = store p (to_le n v) m

store_before : (p a : ℕ) (bs : List ℕ) (m : UserMemory) → a < p → store p bs m a ≡ m a
unfolding store
store_before p a [] m h = refl
store_before p a (b ∷ bs) m h = ground (arith, store_before (p + 1) a bs m)

store_after : (p a : ℕ) (bs : List ℕ) (m : UserMemory) → p + length bs ≤ a → store p bs m a ≡ m a
unfolding store
store_after p a [] m h = refl
store_after p a (b ∷ bs) m h = ground (arith, store_after (p + 1) a bs m)

-- A read depends on the bytes it covers alone.
load_agree :
    (n p : ℕ) (m m' : UserMemory)
    → ((a : ℕ) → p ≤ a → a < p + n → m a ≡ m' a)
    → load n p m ≡ load n p m'
unfolding load
load_agree zero p m m' h = refl
load_agree (suc n) p m m' h =
    ap₂ ◌∷◌ (h p (omega arith) (omega arith))
      (load_agree n (p + 1) m m' (λ a lo hi. h a (omega arith) (omega arith)))

pub length-load : (n p : ℕ) (m : UserMemory) → length (load n p m) ≡ n
unfolding load
length-load zero p m = refl
length-load (suc n) p m = ap suc (length-load n (p + 1) m)

-- What a store leaves is what a load of as many bytes reads.
pub load-store : (p : ℕ) (bs : List ℕ) (m : UserMemory) → load (length bs) p (store p bs m) ≡ bs
unfolding load store
load-store p [] m = refl
load-store p (b ∷ bs) m = ap₂ ◌∷◌ (ground arith) (
    load_agree (length bs) (p + 1) (poke p b (store (p + 1) bs m)) (store (p + 1) bs m)
      (λ a lo hi. ground arith)
    ∙ load-store (p + 1) bs m)
