-- ===== src/Util/Bitmap/Laws.antt =====
-- Reads and writes of single bits, and the search for a clear bit.
use cyanos.Base.{
  ℕ, ◌/◌, ◌%◌, ◌^◌, ◌≡◌, ◌≢◌, bit_and, bit_or, true, false, some, ◌==◌, if◌then◌else◌, get_elem?,
  set, arith, get_elem?-set_ne, not, ℕ_discrete, ap, ==_true, subst, get_elem?-set_self,
  get_elem?-lt_length, ◌∙◌, sym, ==_false,
}
use cyanos.Base.Bits.{bit, and_not}
use cyanos.Base.Bits.Single.{bit_lem, bit-bit_or, bit-and_not, bit-pow_self, bit-pow_ne, bit_small}
use cyanos.Base.Bits.Mask.{bit_and-mask}
use cyanos.Util.Bitmap.{Bitmap, set_bit, clear_bit, get_bit}

-- The test of `get` reads one bit.
get_test : (w k : ℕ) → bit_and (w / 2 ^ k) 1 ≡ bit w k
get_test w k = rw (bit_lem w k) (bit_and-mask 1 (w / 2 ^ k))

-- The word that a write replaces, read at any index.
get_bit_at :
    (words : Bitmap) (w c : ℕ)
    → get_elem? words (c / 64) ≡ some w
    → get_bit c words ≡ some (not (bit w (c % 64) == 0))
unfolding get_bit
get_bit_at words w c h = rw h (ap (λ t. some (not (t == 0))) (get_test w (c % 64)))

get_bit_elsewhere :
    (words : Bitmap) (i w c : ℕ) → i ≢ c / 64 → get_bit c (set words i w) ≡ get_bit c words
unfolding get_bit
get_bit_elsewhere words i w c h = rw (get_elem?-set_ne words w h)

set_bit-eq_some :
    (words : Bitmap) (b : ℕ) {words' : Bitmap}
    → set_bit b words ≡ some words'
    → (w : ℕ) × (get_elem? words (b / 64) ≡ some w)
      × (words' ≡ set words (b / 64) (bit_or w (2 ^ (b % 64))))
unfolding set_bit
set_bit-eq_some words b e = ground arith

-- Both writes at once: the word `w` that holds bit `b` becomes `w'`, which agrees with it at every
-- other bit.
module _ (words : Bitmap) (b w w' : ℕ) (old : get_elem? words (b / 64) ≡ some w) where
  get_bit_written :
      ((k : ℕ) → b % 64 ≢ k → bit w' k ≡ bit w k)
      → (c : ℕ)
      → get_bit c (set words (b / 64) w')
        ≡ (if b == c then some (not (bit w' (b % 64) == 0)) else get_bit c words)
  get_bit_written keeps c = elim (ℕ_discrete b c) [
    | yes e ↦ rw (==_true b c e) (
        get_bit_at (set words (b / 64) w') w' c (
          subst (λ t. get_elem? (set words (b / 64) w') (t / 64) ≡ some w') e
            (get_elem?-set_self words (b / 64) w' (get_elem?-lt_length words (b / 64) old)))
        ∙ ap (λ t. some (not (bit w' (t % 64) == 0))) (sym e))
    | no ne ↦ rw (==_false b c ne) (elim (ℕ_discrete (b / 64) (c / 64)) [
      | yes same ↦
          let ne' : b % 64 ≢ c % 64 = omega arith in
          get_bit_at (set words (b / 64) w') w' c (
            subst (λ t. get_elem? (set words (b / 64) w') t ≡ some w') same
              (get_elem?-set_self words (b / 64) w' (get_elem?-lt_length words (b / 64) old)))
          ∙ ap (λ t. some (not (t == 0))) (keeps (c % 64) ne')
          ∙ sym (get_bit_at words w c (subst (λ t. get_elem? words t ≡ some w) same old))
      | no other ↦ get_bit_elsewhere words (b / 64) w' c other
    ])
  ]

-- Setting a bit makes it read true and leaves every other bit as it was.
get_bit-set_bit :
    (words words' : Bitmap) (b c : ℕ)
    → set_bit b words ≡ some words'
    → get_bit c words' ≡ (if b == c then some true else get_bit c words)
get_bit-set_bit words words' b c e =
    let (w, old, new) = set_bit-eq_some words b e in
    let w' = bit_or w (2 ^ (b % 64)) in
    let ones : (not (bit w' (b % 64) == 0)) ≡ true =
      ground (arith, bit-bit_or w (2 ^ (b % 64)) (b % 64), bit-pow_self (b % 64)) in
    rw (new, ← ones)
      (get_bit_written words b w w' old
        (λ k ne. omega (arith, bit-bit_or w (2 ^ (b % 64)) k, bit-pow_ne (b % 64) k ne)) c)

clear_bit-eq_some :
    (words : Bitmap) (b : ℕ) {words' : Bitmap}
    → clear_bit b words ≡ some words'
    → (w : ℕ) × (get_elem? words (b / 64) ≡ some w)
      × (words' ≡ set words (b / 64) (and_not w (2 ^ (b % 64))))
unfolding clear_bit
clear_bit-eq_some words b e = ground arith

-- Clearing a bit makes it read false and leaves every other bit as it was.
get_bit-clear_bit :
    (words words' : Bitmap) (b c : ℕ)
    → clear_bit b words ≡ some words'
    → get_bit c words' ≡ (if b == c then some false else get_bit c words)
get_bit-clear_bit words words' b c e =
    let (w, old, new) = clear_bit-eq_some words b e in
    let w' = and_not w (2 ^ (b % 64)) in
    let zeros : (not (bit w' (b % 64) == 0)) ≡ false =
      ground (
        arith,
        bit-and_not w (2 ^ (b % 64)) (b % 64),
        bit-pow_self (b % 64),
        bit_small w (b % 64),
      ) in
    rw (new, ← zeros)
      (get_bit_written words b w w' old
        (λ k ne. omega (arith, bit-and_not w (2 ^ (b % 64)) k, bit-pow_ne (b % 64) k ne)) c)
