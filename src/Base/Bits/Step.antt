-- ===== src/Base/Bits/Step.antt =====
-- `&`, `|` and `^` by their lowest digits. The native operations are a recursion on digits with
-- fuel; here the fuel is dropped.
use Prim.Native.Nat.{
  ℕ, zero, suc, ◌+◌, ◌*◌, ◌/◌, ◌%◌, ◌≤◌, ◌<◌, min, max, bit_and, bit_or, bit_xor, digits, bitwise,
  differ, bit_and-bitwise, bit_or-bitwise, bit_xor-bitwise,
}
use mathlib.Core.Path.{◌≡◌, refl, ap, ◌∙◌}
use native.Mathlib.Omega.{arith}
use native.Mathlib.Decide.{ℕ_discrete}

-- Both amounts of fuel cover the first operand.
abbrev Covers : ℕ → ℕ → ℕ → Type 0
Covers x k l = (x ≤ k) × (x ≤ l)

module _ (pad : ℕ → ℕ) (op : ℕ → ℕ → ℕ) where
  digits_same : (y x k l : ℕ) → Covers x k l → digits pad op k x y ≡ digits pad op l x y
  digits_same y zero zero zero c = refl
  digits_same y zero zero (suc l) c = refl
  digits_same y zero (suc k) zero c = refl
  digits_same y zero (suc k) (suc l) c = refl
  digits_same y (suc x) zero l c = absurd (omega arith)
  digits_same y (suc x) (suc k) zero c = absurd (omega arith)
  digits_same y (suc x) (suc k) (suc l) c =
      let half = suc x / 2 in rw (digits_same (y / 2) half k l (omega arith, omega arith))

  bitwise_halves :
      ((y : ℕ) → pad y ≡ op 0 (y % 2) + 2 * pad (y / 2))
      → (x y : ℕ) → bitwise pad op x y ≡ op (x % 2) (y % 2) + 2 * bitwise pad op (x / 2) (y / 2)
  bitwise_halves h zero y = h y
  bitwise_halves h (suc x) y =
      let half = suc x / 2 in
      omega (arith, digits_same (y / 2) half x half (omega arith, omega arith))

pub bit_and-halves : (x y : ℕ) → bit_and x y ≡ min (x % 2) (y % 2) + 2 * bit_and (x / 2) (y / 2)
bit_and-halves x y = simp bit_and-bitwise (bitwise_halves (λ _. 0) min (λ _. omega arith) x y)

pub bit_or-halves : (x y : ℕ) → bit_or x y ≡ max (x % 2) (y % 2) + 2 * bit_or (x / 2) (y / 2)
bit_or-halves x y = simp bit_or-bitwise (bitwise_halves (λ d. d) max (λ _. omega arith) x y)

differ-mod : (x y : ℕ) → x < 2 → y < 2 → differ x y ≡ (x + y) % 2
differ-mod zero zero p q = refl
differ-mod (suc zero) (suc zero) p q = refl
differ-mod (suc zero) zero p q = refl
differ-mod zero (suc zero) p q = refl
differ-mod x (suc (suc y)) p q = absurd (omega arith)
differ-mod (suc (suc x)) y p q = absurd (omega arith)

pub bit_xor-halves : (x y : ℕ) → bit_xor x y ≡ (x % 2 + y % 2) % 2 + 2 * bit_xor (x / 2) (y / 2)
bit_xor-halves x y =
    let digit = differ-mod (x % 2) (y % 2) (omega arith) (omega arith) in
    rw (← digit) (simp bit_xor-bitwise (bitwise_halves (λ d. d) differ (λ _. omega arith) x y))

pub zero-bit_and : (y : ℕ) → bit_and 0 y ≡ 0
zero-bit_and y = bit_and-bitwise 0 y

bit_and-none : (x bound : ℕ) → x < suc bound → bit_and x 0 ≡ 0
bit_and-none x zero lt =
    let empty : x ≡ 0 = omega arith in ap (λ t. bit_and t 0) empty ∙ zero-bit_and 0
bit_and-none x (suc bound) lt = elim (ℕ_discrete x 0) [
  | yes empty ↦ ap (λ t. bit_and t 0) empty ∙ zero-bit_and 0
  | no some_bit ↦
      let upper = bit_and-none (x / 2) bound (omega arith) in
      omega (arith, bit_and-halves x 0, upper)
]

pub bit_and-zero : (x : ℕ) → bit_and x 0 ≡ 0
bit_and-zero x = bit_and-none x x (omega arith)
