-- ===== src/Sched/Futex/Laws.antt =====
-- Which waiters `futex_wake` of sched/src/futex.rs takes, and what becomes of their tasks.
use cyanos.Base.{
  ℕ, ◌+◌, ◌-◌, min, ◌≡◌, refl, ◌≢◌, none, some, [], ◌∷◌, arith, ◌==◌, if◌then◌else◌, length, ◌≤◌,
  Bool, false, ◌||◌, Option, List, ap, ◌∙◌, true, ℕ_discrete, ==_true, ==_false,
}
use cyanos.Sched.Task.{Task}
use cyanos.Sched.RunQueue.{RunQueue, find_pid, modify_pid}
use cyanos.Sched.RunQueue.Lookup.{find_pid-modify_pid}
use cyanos.Sched.Futex.{Waiters, max_wakes, collect, wake_pids, woken_task, futex_wake}
use mathlib.Core.Option

-- The number of waiters on an address.
unfoldable pub waiting : ℕ → Waiters → ℕ
waiting uaddr [] = 0
waiting uaddr (none ∷ tbl) = waiting uaddr tbl
waiting uaddr (some w ∷ tbl) = (if w.uaddr == uaddr then 1 else 0) + waiting uaddr tbl

collect_counts :
    (uaddr n count : ℕ) (tbl : Waiters)
    → (length (collect uaddr n count tbl).0 ≡ min (waiting uaddr tbl) (min n max_wakes - count))
      × (waiting uaddr (collect uaddr n count tbl).1 + length (collect uaddr n count tbl).0
          ≡ waiting uaddr tbl)
unfolding collect waiting
collect_counts uaddr n count [] = ground arith
collect_counts uaddr n count (none ∷ tbl) = ground (arith, collect_counts uaddr n count tbl)
collect_counts uaddr n count (some w ∷ tbl) =
    ground (arith, collect_counts uaddr n count tbl, collect_counts uaddr n (count + 1) tbl)

collect_others :
    (uaddr other n count : ℕ) (tbl : Waiters)
    → uaddr ≢ other
    → waiting other (collect uaddr n count tbl).1 ≡ waiting other tbl
unfolding collect waiting
collect_others uaddr other n count [] ne = refl
collect_others uaddr other n count (none ∷ tbl) ne =
    ground (arith, collect_others uaddr other n count tbl ne)
collect_others uaddr other n count (some w ∷ tbl) ne = ground (
  arith,
  collect_others uaddr other n count tbl ne,
  collect_others uaddr other n (count + 1) tbl ne,
)

wake_pids-length : (pids : List ℕ) (rq : RunQueue) → (wake_pids pids rq).0 ≤ length pids
unfolding wake_pids
wake_pids-length [] rq = omega arith
wake_pids-length (pid ∷ pids) rq =
    ground (arith, wake_pids-length pids (modify_pid pid woken_task rq))

-- `futex_wake` takes as many waiters of the address from the table as there are, but at most `n` and
-- at most 32; it takes none of another address, and reports no more tasks woken than it took.
pub futex_wake_lem :
    (uaddr other n : ℕ) (tbl : Waiters) (rq : RunQueue)
    → uaddr ≢ other
    → (waiting uaddr (futex_wake uaddr n tbl rq).1 ≡ waiting uaddr tbl - min n max_wakes)
      × ((futex_wake uaddr n tbl rq).0 ≤ min (waiting uaddr tbl) (min n max_wakes))
      × (waiting other (futex_wake uaddr n tbl rq).1 ≡ waiting other tbl)
unfolding futex_wake
futex_wake_lem uaddr other n tbl rq ne =
    let (taken, kept) = collect_counts uaddr n 0 tbl in
    let short = wake_pids-length (collect uaddr n 0 tbl).0 rq in
    (omega (arith), omega (arith), collect_others uaddr other n 0 tbl ne)

abbrev is_in : ℕ → List ℕ → Bool
is_in pid [] = false
is_in pid (p ∷ pids) = (p == pid) || is_in pid pids

woken_task_twice : (t : Task) → woken_task (woken_task t) ≡ woken_task t
woken_task_twice t = ground arith

woken_task-pid : (t : Task) → (woken_task t).pid ≡ t.pid
woken_task-pid t = ground arith

wake_pids-find_pid :
    (pid : ℕ) (pids : List ℕ) (rq : RunQueue)
    → find_pid pid (wake_pids pids rq).1
      ≡ (if is_in pid pids then Option.map woken_task (find_pid pid rq) else find_pid pid rq)
unfolding wake_pids
wake_pids-find_pid pid [] rq = refl
wake_pids-find_pid pid (p ∷ pids) rq =
    let rest = wake_pids-find_pid pid pids (modify_pid p woken_task rq) in
    let changed = find_pid-modify_pid p pid woken_task rq woken_task-pid in
    elim (ℕ_discrete p pid) [
      | yes e ↦
          let moved : find_pid pid (modify_pid p woken_task rq)
              ≡ Option.map woken_task (find_pid pid rq) =
            changed ∙ rw (==_true p pid e) (ap (λ q. Option.map woken_task (find_pid q rq)) e) in
          rest ∙ rw (moved, ==_true p pid e) (twice (is_in pid pids) (find_pid pid rq))
      | no n ↦
          let moved : find_pid pid (modify_pid p woken_task rq) ≡ find_pid pid rq =
            changed ∙ rw (==_false p pid n) refl in
          rest ∙ rw (moved, ==_false p pid n) refl
    ]
  where
    twice :
        (b : Bool) (o : Option Task)
        → (if b then Option.map woken_task (Option.map woken_task o) else Option.map woken_task o)
          ≡ Option.map woken_task o
    twice true none = refl
    twice true (some t) = ap some (woken_task_twice t)
    twice false o = refl

-- After `futex_wake`, the task of each pid that it took is ready if it was blocked, and every other
-- task is as it was.
futex_wake-find_pid :
    (uaddr n pid : ℕ) (tbl : Waiters) (rq : RunQueue)
    → find_pid pid (futex_wake uaddr n tbl rq).2 ≡ (
        if is_in pid (collect uaddr n 0 tbl).0
        then Option.map woken_task (find_pid pid rq)
        else find_pid pid rq)
unfolding futex_wake
futex_wake-find_pid uaddr n pid tbl rq = wake_pids-find_pid pid (collect uaddr n 0 tbl).0 rq
