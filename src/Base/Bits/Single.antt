-- ===== src/Base/Bits/Single.antt =====
-- The bit at an index: what each operation does to it, and numbers with the same bits.
use Prim.Native.Nat.{
  ℕ, zero, suc, ◌+◌, ◌-◌, ◌*◌, ◌/◌, ◌%◌, ◌^◌, ◌≤◌, ◌<◌, min, max, bit_and, bit_or, bit_xor,
}
use mathlib.Core.Path.{◌≡◌, refl, ap, ◌∙◌}
use mathlib.Core.Logic.{◌≢◌}
use native.Mathlib.Nat.{pow-suc, div-div-eq-div-mul}
use native.Mathlib.Omega.{arith}
use cyanos.Base.Bits.{bit_and-halves, bit_or-halves, bit_xor-halves, zero-bit_and, and_not, bit}

-- The shift and mask that the source writes.
pub bit_lem : (x k : ℕ) → bit x k ≡ x / 2 ^ k % 2
unfolding bit
bit_lem x zero = omega arith
bit_lem x (suc k) =
    bit_lem (x / 2) k
    ∙ ap (λ t. t % 2)
        (div-div-eq-div-mul x 2 (2 ^ k) ∙ ap (λ t. x / t) (omega (arith, pow-suc 2 k)))

pub bit_small : (x k : ℕ) → bit x k < 2
unfolding bit
bit_small x zero = omega arith
bit_small x (suc k) = bit_small (x / 2) k

bit-bit_and : (a b k : ℕ) → bit (bit_and a b) k ≡ min (bit a k) (bit b k)
unfolding bit
bit-bit_and a b zero = omega (arith, bit_and-halves a b)
bit-bit_and a b (suc k) =
    let half : bit_and a b / 2 ≡ bit_and (a / 2) (b / 2) = omega (arith, bit_and-halves a b) in
    rw half (bit-bit_and (a / 2) (b / 2) k)

pub bit-bit_or : (a b k : ℕ) → bit (bit_or a b) k ≡ max (bit a k) (bit b k)
unfolding bit
bit-bit_or a b zero = omega (arith, bit_or-halves a b)
bit-bit_or a b (suc k) =
    let half : bit_or a b / 2 ≡ bit_or (a / 2) (b / 2) = omega (arith, bit_or-halves a b) in
    rw half (bit-bit_or (a / 2) (b / 2) k)

bit-bit_xor : (a b k : ℕ) → bit (bit_xor a b) k ≡ (bit a k + bit b k) % 2
unfolding bit
bit-bit_xor a b zero = omega (arith, bit_xor-halves a b)
bit-bit_xor a b (suc k) =
    let half : bit_xor a b / 2 ≡ bit_xor (a / 2) (b / 2) = omega (arith, bit_xor-halves a b) in
    rw half (bit-bit_xor (a / 2) (b / 2) k)

bit_and-le_fuel : (n a b : ℕ) → a ≤ n → bit_and a b ≤ a
bit_and-le_fuel zero a b h = let e : a ≡ 0 = omega arith in rw e (omega (arith, zero-bit_and b))
bit_and-le_fuel (suc n) zero b h = bit_and-le_fuel n zero b (omega arith)
bit_and-le_fuel (suc n) (suc a) b h =
    omega (arith, bit_and-halves (suc a) b, bit_and-le_fuel n (suc a / 2) (b / 2) (omega arith))

bit_and-le : (a b : ℕ) → bit_and a b ≤ a
bit_and-le a b = bit_and-le_fuel a a b (omega arith)

and_not_half : (a b : ℕ) → and_not a b ≡ and_not (a / 2) (b / 2) * 2 + (a % 2 - b % 2)
unfolding and_not
and_not_half a b = omega (arith, bit_and-halves a b, bit_and-le (a / 2) (b / 2))

pub bit-and_not : (a b k : ℕ) → bit (and_not a b) k ≡ bit a k - bit b k
unfolding bit
bit-and_not a b zero = omega (arith, and_not_half a b)
bit-and_not a b (suc k) =
    let half : and_not a b / 2 ≡ and_not (a / 2) (b / 2) = omega (arith, and_not_half a b) in
    rw half (bit-and_not (a / 2) (b / 2) k)

-- `1 << j` has one bit.
zero-bit : (k : ℕ) → bit 0 k ≡ 0
unfolding bit
zero-bit zero = refl
zero-bit (suc k) = zero-bit k

half_pow : (j : ℕ) → (2 ^ suc j / 2 ≡ 2 ^ j) × (2 ^ suc j % 2 ≡ 0)
half_pow j = omega (arith, pow-suc 2 j)

pub bit-pow_self : (j : ℕ) → bit (2 ^ j) j ≡ 1
unfolding bit
bit-pow_self zero = refl
bit-pow_self (suc j) = rw ((half_pow j).0) (bit-pow_self j)

pub bit-pow_ne : (j k : ℕ) → j ≢ k → bit (2 ^ j) k ≡ 0
unfolding bit
bit-pow_ne zero zero h = absurd (h refl)
bit-pow_ne zero (suc k) h = zero-bit k
bit-pow_ne (suc j) zero h = (half_pow j).1
bit-pow_ne (suc j) (suc k) h = rw ((half_pow j).0) (bit-pow_ne j k (λ e. h (ap suc e)))

-- Numbers with the same bits are equal.
bit_ext_fuel : (n a b : ℕ) → a ≤ n → b ≤ n → ((k : ℕ) → bit a k ≡ bit b k) → a ≡ b
unfolding bit
bit_ext_fuel zero a b p q h = omega arith
bit_ext_fuel (suc n) a b p q h =
    let ih : a / 2 ≡ b / 2 =
      bit_ext_fuel n (a / 2) (b / 2) (omega arith) (omega arith) (λ k. h (suc k)) in
    let low : a % 2 ≡ b % 2 = h 0 in omega arith

pub bit_ext : (a b : ℕ) → ((k : ℕ) → bit a k ≡ bit b k) → a ≡ b
bit_ext a b h = bit_ext_fuel (a + b) a b (omega arith) (omega arith) h
