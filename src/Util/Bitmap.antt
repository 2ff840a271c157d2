-- ===== src/Util/Bitmap.antt =====
-- lib/src/bitmap.rs: a bitmap of `N` words of 64 bits. An index past the last word is a panic, here
-- `none`.
pub mod Laws
use cyanos.Base.{
  ℕ, zero, suc, ◌+◌, ◌*◌, ◌/◌, ◌%◌, ◌^◌, ◌-◌, bit_and, bit_or, Bool, not, Option, none, some, List,
  [], ◌∷◌, ◌==◌, if◌then◌else◌, ltb, length, get_elem?, get_or, set, replicate, map,
}
use cyanos.Base.Bits.{and_not}
use mathlib.Core.Option

abbrev pub Bitmap : Type 0
Bitmap = List ℕ

pub new : ℕ → Bitmap
new n = replicate n 0

-- `&mut self.words[bit / 64]`, with what is written back.
unfoldable update_word : ℕ → (ℕ → ℕ) → Bitmap → Option Bitmap
update_word i f words = Option.map (λ w. set words i (f w)) (get_elem? words i)

unfoldable pub set_bit : ℕ → Bitmap → Option Bitmap
unfolding update_word
set_bit b words = update_word (b / 64) (λ w. bit_or w (2 ^ (b % 64))) words

pub clear_bit : ℕ → Bitmap → Option Bitmap
unfolding update_word
clear_bit b words = update_word (b / 64) (λ w. and_not w (2 ^ (b % 64))) words

-- `(word >> (bit % 64)) & 1 != 0`.
pub get_bit : ℕ → Bitmap → Option Bool
get_bit b words =
    Option.map (λ w. not (bit_and (w / 2 ^ (b % 64)) 1 == 0)) (get_elem? words (b / 64))

-- `trailing_ones` of a word, counting at most `k` of them.
trailing_ones : ℕ → ℕ → ℕ
trailing_ones zero w = 0
trailing_ones (suc k) w = if w % 2 == 0 then 0 else suc (trailing_ones k (w / 2))

-- The loop over `words.iter().enumerate()`, from word `i` on.
first_clear_from : ℕ → List ℕ → Option ℕ
first_clear_from i [] = none
first_clear_from i (w ∷ words) =
    if w == 2 ^ 64 - 1 then first_clear_from (i + 1) words else some (i * 64 + trailing_ones 64 w)

first_clear : Bitmap → Option ℕ
first_clear words = first_clear_from 0 words

capacity : Bitmap → ℕ
capacity words = length words * 64
