-- ===== src/Sched/Signal/Laws.antt =====
-- Which signal sched/src/signal.rs delivers.
use cyanos.Base.{
  ℕ, zero, suc, ◌/◌, ◌%◌, ◌^◌, ◌<◌, ◌≡◌, ◌≢◌, inl, inr, some, arith, ℕ_discrete, ◌==◌,
  if◌then◌else◌, Bool-cases, ◌≤◌, bit_or, subst, Bool, true, false,
}
use native.Mathlib.Nat.{pow-suc}
use cyanos.Base.Bits.{and_not, bit}
use cyanos.Base.Bits.Single.{bit-and_not, bit_small, bit-bit_or, bit-pow_self, bit-pow_ne}
use cyanos.Sched.Task.{Task, SigAction}
use cyanos.Sched.Signal.{sample, take_signal, trailing_zeros, has_flag, sa_nodefer}

-- The lowest bit of a word that is not zero.
record Lowest (x i : ℕ) : Type 0 where
  pub is_set : bit x i ≡ 1
  pub lower : (j : ℕ) → j < i → bit x j ≡ 0

trailing_zeros-Lowest : (k x : ℕ) → x ≢ 0 → x < 2 ^ k → Lowest x (trailing_zeros k x)
unfolding trailing_zeros bit
trailing_zeros-Lowest zero x nz h = absurd (nz (omega arith))
trailing_zeros-Lowest (suc k) x nz h = elim (Bool-cases (x % 2 == 1)) [
  | inl odd ↦
      rw (odd, trailing_zeros)
        (record { is_set = ground arith; lower = λ j lt. absurd (omega arith) })
  | inr even ↦
      let zero_digit : x % 2 ≡ 0 = ground arith in
      let rest =
        trailing_zeros-Lowest k (x / 2) (λ e. nz (omega arith)) (omega (arith, pow-suc 2 k)) in
      rw (even, trailing_zeros) (record { is_set = rest.is_set; lower = below rest zero_digit })
]
  where
    below : {i : ℕ} → Lowest (x / 2) i → x % 2 ≡ 0 → (j : ℕ) → j < suc i → bit x j ≡ 0
    below l z zero lt = z
    below l z (suc j) lt = l.lower j (omega arith)

and_not-le : (a b : ℕ) → and_not a b ≤ a
unfolding and_not
and_not-le a b = omega arith

sampled :
    (i old_mask : ℕ) (action : SigAction) (t : Task)
    → sample t ≡ some (some (i, action, old_mask))
    → (and_not t.signal_pending t.signal_mask ≢ 0)
      × (trailing_zeros 64 (and_not t.signal_pending t.signal_mask) ≡ i)
unfolding sample
sampled i old_mask action t e = elim (ℕ_discrete (and_not t.signal_pending t.signal_mask) 0) [
  | yes none_left ↦ absurd (ground arith)
  | no some_left ↦ (some_left, ground (arith))
]

-- The signal that is sampled is pending and not masked, and it is the lowest such signal; once it is
-- taken it is not pending, the other pending signals are as they were, and it is masked unless its
-- action has the flag that leaves it open. The pending signals are a word of 64 bits.
sample-take_signal :
    (i other old_mask : ℕ) (action : SigAction) (t : Task)
    → t.signal_pending < 2 ^ 64
    → sample t ≡ some (some (i, action, old_mask))
    → i ≢ other
    → Lowest (and_not t.signal_pending t.signal_mask) i
      × (bit t.signal_pending i ≡ 1)
      × (bit t.signal_mask i ≡ 0)
      × (bit (take_signal i action t).signal_pending i ≡ 0)
      × (bit (take_signal i action t).signal_pending other ≡ bit t.signal_pending other)
      × (bit (take_signal i action t).signal_mask i
          ≡ (if has_flag action.flags sa_nodefer then 0 else 1))
unfolding sample take_signal
sample-take_signal i other old_mask action t small e ne =
    let (nz, at) = sampled i old_mask action t e in
    let lowest =
      trailing_zeros-Lowest 64 (and_not t.signal_pending t.signal_mask) nz
        (omega (arith, and_not-le t.signal_pending t.signal_mask)) in
    let low : Lowest (and_not t.signal_pending t.signal_mask) i =
      subst (Lowest (and_not t.signal_pending t.signal_mask)) at lowest in
    let difference = bit-and_not t.signal_pending t.signal_mask i in
    let pending : bit t.signal_pending i ≡ 1 =
      omega (arith, low.is_set, difference, bit_small t.signal_pending i) in
    let open_mask : bit t.signal_mask i ≡ 0 =
      omega (arith, low.is_set, difference, bit_small t.signal_pending i) in
    (
      low,
      pending,
      open_mask,
      omega (arith, bit-and_not t.signal_pending (2 ^ i) i, bit-pow_self i),
      omega (arith, bit-and_not t.signal_pending (2 ^ i) other, bit-pow_ne i other ne),
      masked (has_flag action.flags sa_nodefer) open_mask,
    )
  where
    masked :
        (deferred : Bool)
        → bit t.signal_mask i ≡ 0
        → bit
            (if deferred then t.signal_mask else bit_or t.signal_mask (bit_or (2 ^ i) action.mask))
            i
          ≡ (if deferred then 0 else 1)
    masked true h = h
    masked false h = omega (
      arith,
      bit-bit_or t.signal_mask (bit_or (2 ^ i) action.mask) i,
      bit-bit_or (2 ^ i) action.mask i,
      bit-pow_self i,
      bit_small action.mask i,
      h,
    )
