-- ===== src/Mm/Buddy/Pages.antt =====
-- How many pages the free lists of mm/src/buddy.rs hold, and the address arithmetic of blocks.
use cyanos.Base.{
  ℕ, zero, suc, ◌+◌, ◌^◌, ◌<◌, ◌≡◌, Option, none, some, List, [], ◌∷◌, arith, length, set, ◌*◌, ◌/◌,
  ◌%◌, ◌≤◌, bit_xor, refl, sym, ap, ◌∙◌,
}
use native.Mathlib.Nat.{pow-suc}
use cyanos.Base.Bits.{bit_xor-halves}
use cyanos.Base.Bits.Mask.{pow_pos, mod-double}
use cyanos.Mm.Buddy.{head_at, block_size, buddy_of}

-- The pages in the blocks that the lists hold, the first of which is for `order`.
unfoldable pub held_from : ℕ → List (Option ℕ) → ℕ
held_from order [] = 0
held_from order (none ∷ ls) = held_from (suc order) ls
held_from order (some a ∷ ls) = 2 ^ order + held_from (suc order) ls

abbrev pub held : List (Option ℕ) → ℕ
held = held_from 0

abbrev pub pages_of : ℕ → Option ℕ → ℕ
pages_of order none = 0
pages_of order (some a) = 2 ^ order

held_from-cons :
    (base : ℕ) (x : Option ℕ) (ls : List (Option ℕ))
    → held_from base (x ∷ ls) ≡ pages_of base x + held_from (suc base) ls
unfolding held_from
held_from-cons base none ls = omega arith
held_from-cons base (some a) ls = refl

held_from-set :
    (ls : List (Option ℕ)) (base i j : ℕ) (v : Option ℕ)
    → i < length ls
    → base + i ≡ j
    → held_from base (set ls i v) + pages_of j (head_at ls i) ≡ held_from base ls + pages_of j v
held_from-set [] base i j v h e = absurd (omega arith)
held_from-set (x ∷ ls) base zero j v h e =
    let same : base ≡ j = omega arith in
    rw (held_from-cons base x ls, held_from-cons base v ls, same) (omega arith)
held_from-set (x ∷ ls) base (suc i) j v h e =
    rw (held_from-cons base x ls, held_from-cons base x (set ls i v))
      (omega (arith, held_from-set ls (suc base) i j v (omega arith) (omega arith)))

-- Writing a slot exchanges the pages of the block that it holds.
pub held-set :
    (ls : List (Option ℕ)) (i : ℕ) (v : Option ℕ)
    → i < length ls
    → held (set ls i v) + pages_of i (head_at ls i) ≡ held ls + pages_of i v
held-set ls i v h = held_from-set ls 0 i i v h (omega arith)

bit_xor-zero_fuel : (n a : ℕ) → a ≤ n → bit_xor a 0 ≡ a
bit_xor-zero_fuel n zero h = refl
bit_xor-zero_fuel zero (suc a) h = absurd (omega arith)
bit_xor-zero_fuel (suc n) (suc a) h =
    omega (arith, bit_xor-halves (suc a) 0, bit_xor-zero_fuel n (suc a / 2) (omega arith))

half_mod : (a p : ℕ) → 0 < p → a % (2 * p) ≡ 0 → (a / 2 % p ≡ 0) × (a % 2 ≡ 0)
half_mod a p h e = omega (arith, mod-double a p h)

-- A bit that is clear, with all below it clear, is set by `^`.
bit_xor-pow : (k a : ℕ) → a % 2 ^ suc k ≡ 0 → bit_xor a (2 ^ k) ≡ a + 2 ^ k
bit_xor-pow zero a e =
    omega (arith, bit_xor-halves a 1, bit_xor-zero_fuel (a / 2) (a / 2) (omega arith))
bit_xor-pow (suc k) a e =
    let two : 2 ^ suc (suc k) ≡ 2 * 2 ^ suc k = omega (arith, pow-suc 2 (suc k)) in
    let low = half_mod a (2 ^ suc k) (pow_pos (suc k)) (ap (λ t. a % t) (sym two) ∙ e) in
    let half : 2 ^ suc k / 2 ≡ 2 ^ k = omega (arith, pow-suc 2 k) in
    let even : 2 ^ suc k % 2 ≡ 0 = omega (arith, pow-suc 2 k) in
    bit_xor-halves a (2 ^ suc k)
    ∙ rw (half, even, bit_xor-pow k (a / 2) low.0) (omega (arith, pow-suc 2 k))

later : (order : ℕ) → 12 + suc order ≡ suc (12 + order)
later order = omega arith

block_size_lem : (order : ℕ) → block_size order ≡ 2 ^ (12 + order)
block_size_lem zero = refl
block_size_lem (suc order) =
    rw (later order) (omega (arith, block_size_lem order, pow-suc 2 order, pow-suc 2 (12 + order)))

-- The buddy of a block that is aligned for the next order lies behind it.
pub buddy_of_aligned :
    (addr order : ℕ)
    → addr % block_size (suc order) ≡ 0
    → buddy_of addr order ≡ addr + block_size order
unfolding buddy_of
buddy_of_aligned addr order e = rw (block_size_lem order) (
    bit_xor-pow (12 + order) addr (
      ap (λ k. addr % 2 ^ k) (sym (later order))
      ∙ ap (λ t. addr % t) (sym (block_size_lem (suc order)))
      ∙ e))
