-- ===== src/Util.antt =====
-- lib/src/lib.rs, the crate `cyanos_lib`: alignment of addresses. Its ring buffer and its bitmap
-- are the children.
pub mod Align
pub mod Ring
pub mod Bitmap
use cyanos.Base.{ℕ, add64, sub64}
use cyanos.Base.Bits.{and_not}

-- `(value + align - 1) & !(align - 1)` on `usize`.
unfoldable pub align_up : ℕ → ℕ → ℕ
align_up value align = and_not (sub64 (add64 value align) 1) (sub64 align 1)

-- `value & !(align - 1)`.
unfoldable pub align_down : ℕ → ℕ → ℕ
align_down value align = and_not value (sub64 align 1)
