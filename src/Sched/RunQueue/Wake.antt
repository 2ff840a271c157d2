-- ===== src/Sched/RunQueue/Wake.antt =====
-- What `unblock_port` of sched/src/runqueue.rs does to every slot.
use cyanos.Base.{
  ℕ, zero, suc, ◌≡◌, refl, false, none, some, [], ◌∷◌, Bool-cases, ◌∙◌, ap, inl, inr, if◌then◌else◌,
}
use cyanos.Sched.Task.{Task}
use cyanos.Sched.RunQueue.{
  RunQueue, Slots, slot_at, wake, wake_all, unblock_port, waits_on, TaskState,
}

slot_at-wake_all :
    (port : ℕ) (s : Slots) (i : ℕ) → slot_at (wake_all port s) i ≡ wake port (slot_at s i)
unfolding wake_all
slot_at-wake_all port [] i = refl
slot_at-wake_all port (x ∷ s) zero = refl
slot_at-wake_all port (x ∷ s) (suc i) = slot_at-wake_all port s i

-- After `unblock_port` no task waits on the port: one that did is ready and waits on nothing, with
-- its other fields kept, and every other task is as it was, in its slot.
unblock_port_lem :
    (port i : ℕ) (t : Task) (rq : RunQueue)
    → slot_at rq.tasks i ≡ some t
    → (u : Task) × (slot_at (unblock_port port rq).tasks i ≡ some u)
      × (waits_on port u ≡ false)
      × (u ≡ (
          if waits_on port t then record t { state = TaskState.ready; blocked_on = none } else t))
unfolding unblock_port
unblock_port_lem port i t rq e =
    let woken = slot_at-wake_all port rq.tasks i ∙ ap (wake port) e in
    elim (Bool-cases (waits_on port t)) [
      | inl w ↦ (
        record t { state = TaskState.ready; blocked_on = none },
        woken ∙ rw (w) refl,
        refl,
        rw (w) refl,
      )
      | inr w ↦ (t, woken ∙ rw (w) refl, w, rw (w) refl)
    ]
