-- ===== src/Vfs/Event/Laws.antt =====
-- The event counters and timers of servers/vfs/src/lib.rs add up what they are given.
use cyanos.Base.{
  ℕ, ◌+◌, ◌-◌, ◌*◌, ◌%◌, ◌^◌, ◌≤◌, ◌<◌, min, ◌≡◌, refl, ap, ◌∙◌, true, false, arith, ltb, ◌==◌,
  length, set, get_or-set_self, ◌/◌, sym, leb, add64,
}
use native.Mathlib.Nat.{div-add-mod, mod-lt, mod-eq_of_lt, div-le_self}
use cyanos.Server.Memory.{load_word}
use cyanos.Server.Wire.{value}
use cyanos.Vfs.{Vfs, TimerFdEntry, max_u64}
use cyanos.Vfs.Event.{counter_free}
use cyanos.Vfs.Transfer.{counter_at, expire}
use cyanos.Vfs.Transfer.Write.{write_counter}

counter_at-set :
    (slot n : ℕ) (v : Vfs)
    → slot < length v.eventfd_counters
    → counter_at slot (record v { eventfd_counters = set v.eventfd_counters slot n }) ≡ n
counter_at-set slot n v h = get_or-set_self v.eventfd_counters slot n 0 h

-- A write that makes an event counter overflow leaves the number that marks a free counter, so that
-- the next eventfd is given the counter of a descriptor that is still open.
write_counter_frees :
    (slot from count : ℕ) (v : Vfs)
    → slot < length v.eventfd_counters
    → 8 ≤ count
    → load_word 8 from v.memory < max_u64
    → max_u64 ≤ counter_at slot v + load_word 8 from v.memory
    → ((write_counter slot from count v).0 ≡ value 8)
      × (counter_free (counter_at slot (write_counter slot from count v).1) ≡ true)
unfolding write_counter
write_counter_frees slot from count v h big small over =
    let a : ℕ = load_word 8 from v.memory in
    let wide : ltb count 8 ≡ false = ground arith in
    let not_max : (a == max_u64) ≡ false = ground arith in
    let sum : min (counter_at slot v + a) max_u64 ≡ max_u64 = omega arith in
    let here = counter_at-set slot max_u64 v h in
    rw (wide, not_max, sum, write_counter) (refl, rw here refl)

-- A periodic timer whose deadline has passed counts each period that has ended, and its next deadline
-- is the first one after now.
pub expire_lem :
    (now : ℕ) (e : TimerFdEntry)
    → e.armed ≡ true
    → 0 < e.interval_ticks
    → e.deadline_ticks ≤ now
    → now + e.interval_ticks < 2 ^ 64
    → e.expirations + now + 1 < 2 ^ 64
    → (now < (expire now e).deadline_ticks)
      × ((expire now e).deadline_ticks ≤ now + e.interval_ticks)
      × ((expire now e).deadline_ticks
          ≡ e.deadline_ticks + ((expire now e).expirations - e.expirations) * e.interval_ticks)
unfolding expire
expire_lem now e armed pos past small counts =
    let i : ℕ = e.interval_ticks in
    let late : ℕ = now - e.deadline_ticks in
    let q : ℕ = late / i in
    let parts : i * q + late % i ≡ late = div-add-mod late i in
    let rest : late % i < i = mod-lt late pos in
    let few : q ≤ late = div-le_self late i in
    let product : (q + 1) * i ≡ i * q + i = omega arith in
    let periodic : (i == 0) ≡ false = ground arith in
    let due : leb e.deadline_ticks now ≡ true = ground arith in
    let step : ℕ = (q + 1) * i in
    let result : expire now e ≡ record e {
      expirations = add64 e.expirations (q + 1);
      deadline_ticks = add64 e.deadline_ticks step;
    } =
      ground (arith, armed, due, periodic) in
    let deadline : (expire now e).deadline_ticks ≡ e.deadline_ticks + step =
      ap (λ t. t.deadline_ticks) result
      ∙ mod-eq_of_lt (omega (arith, parts, rest, product, past, small)) in
    let count : (expire now e).expirations ≡ e.expirations + (q + 1) =
      ap (λ t. t.expirations) result ∙ mod-eq_of_lt (omega (arith, few, past, counts)) in
    let extra : (expire now e).expirations - e.expirations ≡ q + 1 = omega (arith, count) in
    (
      omega (arith, deadline, parts, rest, product, past),
      omega (arith, deadline, parts, rest, product, past),
      deadline ∙ ap (λ k. e.deadline_ticks + k * i) (sym extra),
    )
