-- ===== src/Base/Bits/Mask.antt =====
-- A mask of low bits is a remainder.
use Prim.Native.Nat.{ℕ, zero, suc, ◌+◌, ◌-◌, ◌*◌, ◌/◌, ◌%◌, ◌^◌, ◌<◌, bit_and}
use mathlib.Core.Path.{◌≡◌, sym, ap, ◌∙◌}
use native.Mathlib.Nat.{pow-suc, div-add-mod, mod-lt, mod-eq_of_lt, mul-add-mod_self_left}
use native.Mathlib.Omega.{arith}
use cyanos.Base.Bits.{bit_and-halves, bit_and-zero, and_not}

pub pow_pos : (k : ℕ) → 0 < 2 ^ k
pow_pos zero = omega arith
pow_pos (suc k) = omega (arith, pow_pos k, pow-suc 2 k)

-- The remainder by an even number: the lowest digit, and the remainder of the others.
pub mod-double : (a p : ℕ) → 0 < p → a % (2 * p) ≡ a / 2 % p * 2 + a % 2
mod-double a p h =
    let q = a / 2 / p in
    let r = a / 2 % p * 2 + a % 2 in
    let split : a ≡ 2 * p * q + r = grind (arith, div-add-mod (a / 2) p) in
    let small : r < 2 * p = omega (arith, mod-lt (a / 2) h) in
    ap (λ t. t % (2 * p)) split ∙ mul-add-mod_self_left (2 * p) q r ∙ mod-eq_of_lt small

-- One digit of a mask of ones, and the mask of the other digits.
double_mask : (p a : ℕ) → 0 < p → bit_and a (2 * p - 1) ≡ bit_and (a / 2) (p - 1) * 2 + a % 2
double_mask p a h =
    let low : (2 * p - 1) / 2 ≡ p - 1 = omega arith in
    let odd : (2 * p - 1) % 2 ≡ 1 = omega arith in
    bit_and-halves a (2 * p - 1) ∙ rw (low, odd) (omega arith)

-- A mask of `k` ones keeps the remainder by `2 ^ k`.
pub bit_and-mask : (k a : ℕ) → bit_and a (2 ^ k - 1) ≡ a % 2 ^ k
bit_and-mask zero a = omega (arith, bit_and-zero a)
bit_and-mask (suc k) a =
    let e : 2 ^ suc k ≡ 2 * 2 ^ k = omega (arith, pow-suc 2 k) in
    rw (e, double_mask (2 ^ k) a (pow_pos k), bit_and-mask k (a / 2))
      (sym (mod-double a (2 ^ k) (pow_pos k)))

pub and_not-mask : (k a : ℕ) → and_not a (2 ^ k - 1) ≡ a - a % 2 ^ k
unfolding and_not
and_not-mask k a = ap (λ t. a - t) (bit_and-mask k a)

-- The masks of a page and of 16 bytes.
pub and_not-page : (a : ℕ) → and_not a 4095 ≡ a - a % 4096
and_not-page a = and_not-mask 12 a

and_not-sixteen : (a : ℕ) → and_not a 15 ≡ a - a % 16
and_not-sixteen a = and_not-mask 4 a
