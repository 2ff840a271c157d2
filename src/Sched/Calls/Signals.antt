-- ===== src/Sched/Calls/Signals.antt =====
-- `deliver_signal` and `clear_pending_signal` of sched/src/lib.rs, bit by bit.
use cyanos.Base.{
  ℕ, ◌≡◌, refl, ◌&&◌, ◌==◌, if◌then◌else◌, ◌^◌, bit_or, subst, ◌∙◌, inl, inr, none, arith,
  ℕ_discrete, Bool-cases, Option-cases, ==_false, sym, ap, ◌-◌, true, some, ==_true,
}
use cyanos.Base.Bits.{and_not, bit}
use cyanos.Base.Bits.Single.{bit-bit_or, bit-pow_self, bit-pow_ne, bit-and_not, bit_ext, bit_small}
use cyanos.Sched.Task.{Task}
use cyanos.Sched.RunQueue.{find_pid, modify_pid}
use cyanos.Sched.RunQueue.Lookup.{find_pid-modify_pid}
use cyanos.Sched.Calls.{
  Sched, is_signal, signalled, deliver_signal, clear_pending_signal, pending_signals,
}
use mathlib.Core.Option

-- A signal to a task that is in the run queue makes it pending there and readies the task if it is
-- blocked; a number outside 1 to 64, or a pid that is not found, is refused and changes nothing.
deliver_signal-find_pid :
    (pid other signo : ℕ) (s : Sched)
    → find_pid other (deliver_signal pid signo s).1.run_queue ≡ (
        if (pid == other) && is_signal signo
        then Option.map (signalled signo) (find_pid pid s.run_queue)
        else find_pid other s.run_queue)
unfolding deliver_signal
deliver_signal-find_pid pid other signo s =
    let changed = find_pid-modify_pid pid other (signalled signo) s.run_queue (λ t. refl) in
    elim (Option-cases (find_pid pid s.run_queue)) [
      | inl gone ↦ elim (ℕ_discrete pid other) [
        | yes e ↦
            let gone' : find_pid other s.run_queue ≡ none =
              subst (λ q. find_pid q s.run_queue ≡ none) e gone in
            ground (arith, gone, gone')
        | no n ↦ rw (gone, deliver_signal, ==_false pid other n) refl
      ]
      | inr (t, found) ↦ elim (Bool-cases (is_signal signo)) [
        | inl ok ↦ ground (arith, changed, found, ok)
        | inr bad ↦ ground (arith, found, bad)
      ]
    ]

and_not-bit_or : (a j : ℕ) → and_not (bit_or a (2 ^ j)) (2 ^ j) ≡ and_not a (2 ^ j)
and_not-bit_or a j = bit_ext (and_not (bit_or a (2 ^ j)) (2 ^ j)) (and_not a (2 ^ j)) (λ k.
    elim (ℕ_discrete j k) [
      | yes e ↦
          let one : bit (2 ^ j) k ≡ 1 = ap (bit (2 ^ j)) (sym e) ∙ bit-pow_self j in
          omega (
            arith,
            bit-and_not (bit_or a (2 ^ j)) (2 ^ j) k,
            bit-and_not a (2 ^ j) k,
            bit_small a k,
            bit_small (bit_or a (2 ^ j)) k,
          )
      | no n ↦ omega (
        arith,
        bit-and_not (bit_or a (2 ^ j)) (2 ^ j) k,
        bit-and_not a (2 ^ j) k,
        bit-bit_or a (2 ^ j) k,
        bit-pow_ne j k n,
      )
    ])

-- A signal from 1 to 64 that the current task, which is in the run queue, is sent and then clears
-- leaves its pending signals as they were, but for the signal itself, which is no longer pending.
clear_pending_signal-deliver_signal :
    (signo : ℕ) (s : Sched) (t : Task)
    → is_signal signo ≡ true
    → find_pid s.current_pid s.run_queue ≡ some t
    → pending_signals (clear_pending_signal signo (deliver_signal s.current_pid signo s).1)
      ≡ and_not (pending_signals s) (2 ^ (signo - 1))
unfolding deliver_signal clear_pending_signal pending_signals
clear_pending_signal-deliver_signal signo s t ok found =
    let cleared : Task → Task =
      λ u. record u { signal_pending = and_not u.signal_pending (2 ^ (signo - 1)) } in
    let rq = modify_pid s.current_pid (signalled signo) s.run_queue in
    let first =
      find_pid-modify_pid s.current_pid s.current_pid (signalled signo) s.run_queue (λ u. refl) in
    let second = find_pid-modify_pid s.current_pid s.current_pid cleared rq (λ u. refl) in
    let self = ==_true s.current_pid s.current_pid refl in
    let now : find_pid s.current_pid (modify_pid s.current_pid cleared rq)
        ≡ some (cleared (signalled signo t)) =
      second ∙ rw (self, first, self, found) refl in
    ground (arith, now, found, ok, and_not-bit_or t.signal_pending (signo - 1))
