-- ===== src/Base/Text.antt =====
-- The bytes of a text of the source, `b"..."`. The texts are ASCII, so that a character is a byte.
use Prim.Native.Nat.{ℕ, ◌-◌}
use Prim.Native.Char.{code}
use Prim.Native.String.{String}
use mathlib.Core.List.{List, [], ◌∷◌}
use mathlib.Core.Bool.{Bool, true, false, ◌&&◌}
use mathlib.Core.Path.{◌≡◌, refl}
use native.Mathlib.Omega.{arith}
use cyanos.Base.Lists.{length, take, drop}
use cyanos.Base.Tests.{leb, ◌==◌}

unfoldable pub text : String → List ℕ
text String.[] = []
text (String.◌∷◌ c s) = code c ∷ text s

-- `==` of two slices.
unfoldable pub same_bytes : List ℕ → List ℕ → Bool
same_bytes [] [] = true
same_bytes [] (b ∷ bs) = false
same_bytes (a ∷ as_) [] = false
same_bytes (a ∷ as_) (b ∷ bs) = (a == b) && same_bytes as_ bs

unfoldable pub starts_with : List ℕ → List ℕ → Bool
starts_with bs [] = true
starts_with [] (p ∷ ps) = false
starts_with (b ∷ bs) (p ∷ ps) = (b == p) && starts_with bs ps

abbrev pub ends_with : List ℕ → List ℕ → Bool
ends_with bs s = leb (length s) (length bs) && same_bytes (drop (length bs - length s) bs) s

-- `bs[from..to]`.
abbrev pub slice : ℕ → ℕ → List ℕ → List ℕ
slice from to bs = take (to - from) (drop from bs)

pub same_bytes_refl : (bs : List ℕ) → same_bytes bs bs ≡ true
unfolding same_bytes
same_bytes_refl [] = refl
same_bytes_refl (b ∷ bs) = ground (arith, same_bytes_refl bs)

pub same_bytes_eq : (as_ bs : List ℕ) → same_bytes as_ bs ≡ true → as_ ≡ bs
unfolding same_bytes
same_bytes_eq [] [] e = refl
same_bytes_eq [] (b ∷ bs) e = absurd (cc)
same_bytes_eq (a ∷ as_) [] e = absurd (cc)
same_bytes_eq (a ∷ as_) (b ∷ bs) e = ground (arith, same_bytes_eq as_ bs)
