-- ===== src/Base/Bits.antt =====
-- The bit operations of the source at variables: one digit at a time, and the bit at an index.
-- The children state the laws of masks and of single bits.
mod Step
pub mod Mask
pub mod Single
pub use Step.{bit_and-halves, bit_or-halves, bit_xor-halves, bit_and-zero, zero-bit_and}
use Prim.Native.Nat.{ℕ, zero, suc, ◌-◌, ◌/◌, ◌%◌, bit_and}

-- `x & !m`: the bits of `x` that `m` does not have. It does not borrow, so it is a difference.
unfoldable pub and_not : ℕ → ℕ → ℕ
and_not x m = x - bit_and x m

-- `(x >> k) & 1`.
unfoldable pub bit : ℕ → ℕ → ℕ
bit x zero = x % 2
bit x (suc k) = bit (x / 2) k
