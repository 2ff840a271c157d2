-- ===== src/Util/Align.antt =====
-- What `align_up` and `align_down` of lib/src/lib.rs compute at a power of two.
use native.Mathlib.Nat.{mod-lt, div-add-mod, mul-mod_right}
use cyanos.Base.{ℕ, ◌+◌, ◌-◌, ◌*◌, ◌/◌, ◌%◌, ◌^◌, ◌≤◌, ◌<◌, ◌≡◌, ap, ◌∙◌, arith, sub64, add64}
use cyanos.Base.Bits.Mask.{pow_pos, and_not-mask}
use cyanos.Util.{align_up, align_down}

mask_of_pow : (k : ℕ) → 2 ^ k ≤ 2 ^ 63 → sub64 (2 ^ k) 1 ≡ 2 ^ k - 1
mask_of_pow k h = omega (arith, pow_pos k)

-- Taking off the remainder leaves the largest multiple that is not above.
floor : (a m : ℕ) → 0 < m → ((a - a % m) % m ≡ 0) × (a - a % m ≤ a) × (a < a - a % m + m)
floor a m h =
    let e : a - a % m ≡ m * (a / m) = omega (arith, div-add-mod a m) in
    (ap (λ t. t % m) e ∙ mul-mod_right m (a / m), omega arith, omega (arith, mod-lt a h))

-- For an alignment of `2 ^ k`, `align_down` gives the largest multiple of it that is not above the
-- value.
align_down_lem :
    (value k : ℕ)
    → 2 ^ k ≤ 2 ^ 63
    → (align_down value (2 ^ k) % 2 ^ k ≡ 0)
      × (align_down value (2 ^ k) ≤ value)
      × (value < align_down value (2 ^ k) + 2 ^ k)
unfolding align_down
align_down_lem value k h =
    rw (mask_of_pow k h, and_not-mask k value) (floor value (2 ^ k) (pow_pos k))

-- For an alignment of `2 ^ k` at which the sum does not wrap, `align_up` gives the smallest
-- multiple of it that is not below the value.
align_up_lem :
    (value k : ℕ)
    → 2 ^ k ≤ 2 ^ 63
    → value + 2 ^ k < 2 ^ 64
    → (align_up value (2 ^ k) % 2 ^ k ≡ 0)
      × (value ≤ align_up value (2 ^ k))
      × (align_up value (2 ^ k) < value + 2 ^ k)
unfolding align_up
align_up_lem value k h fits =
    let sum : sub64 (add64 value (2 ^ k)) 1 ≡ value + 2 ^ k - 1 = omega (arith, pow_pos k) in
    let f = floor (value + 2 ^ k - 1) (2 ^ k) (pow_pos k) in
    rw (mask_of_pow k h, sum, and_not-mask k (value + 2 ^ k - 1))
      (f.0, omega (arith, f.2), omega (arith, f.1, pow_pos k))
