-- ===== src/Sched/Signal.antt =====
-- sched/src/signal.rs: the mask, the actions, and the choice of the signal that is delivered. The frame
-- on the user stack is the architecture's.
pub mod Laws
use cyanos.Base.{
  ℕ, zero, suc, ◌+◌, ◌/◌, ◌%◌, ◌^◌, bit_and, bit_or, Bool, true, false, not, Option, none, some,
  ◌==◌, if◌then◌else◌, get_elem?, set, sub64,
}
use cyanos.Base.Bits.{and_not}
use cyanos.Sched.Task.{Task, TaskState, SigAction}
use cyanos.Sched.RunQueue.{RunQueue, find_pid, modify_pid}
use cyanos.Sched.Calls.{Sched, Delivery, update, exit}

abbrev sa_restorer : ℕ
sa_restorer = 0x04000000

abbrev pub sa_nodefer : ℕ
sa_nodefer = 0x40000000

abbrev sa_resethand : ℕ
sa_resethand = 0x80000000

-- SIGCHLD, SIGURG and SIGWINCH.
abbrev sigdfl_ignore : ℕ
sigdfl_ignore = 2 ^ 16 + 2 ^ 22 + 2 ^ 27

abbrev sigsegv : ℕ
sigsegv = 11

-- `flags & flag != 0`.
abbrev pub has_flag : ℕ → ℕ → Bool
has_flag flags flag = not (bit_and flags flag == 0)

-- `trailing_zeros`, of a word that has a bit among its lowest `k`.
unfoldable pub trailing_zeros : ℕ → ℕ → ℕ
trailing_zeros zero x = 0
trailing_zeros (suc k) x = elim (x % 2 == 1) [ true ↦ 0 | false ↦ suc (trailing_zeros k (x / 2)) ]

-- What is sampled of the current task: the bit of the lowest signal that is pending and not masked,
-- its action, and the mask. An action past the end of the table is a panic, here the outer `none`; the
-- inner one is that there is no such signal.
unfoldable pub sample : Task → Option (Option (ℕ × SigAction × ℕ))
unfolding trailing_zeros
sample t =
    let unmasked = and_not t.signal_pending t.signal_mask in
    let bit = trailing_zeros 64 unmasked in
    if unmasked == 0 then some none else elim (get_elem? t.signal_actions bit) [
      | none ↦ none
      | some action ↦ some (some (bit, action, t.signal_mask))
    ]

-- The task once the signal of this bit is taken: it is pending no more, it is masked with the action's
-- mask unless the action says otherwise, and an action for one delivery is reset.
unfoldable pub take_signal : ℕ → SigAction → Task → Task
take_signal bit action t = record t {
  signal_pending = and_not t.signal_pending (2 ^ bit);
  signal_mask =
      (if has_flag action.flags sa_nodefer
        then t.signal_mask
        else bit_or t.signal_mask (bit_or (2 ^ bit) action.mask));
  signal_actions =
      (if has_flag action.flags sa_resethand
        then set t.signal_actions bit (record action { handler = 0 })
        else t.signal_actions);
}

-- One turn of the loop of `check_and_deliver_signals`.
data Turn : Type 0 where
  returns : Turn
  continues : Turn
  exits : Turn

-- `prepare` is `arch_prepare_signal_frame` of the signal, the handler, the restorer and the old mask.
unfoldable deliver_turn : (ℕ → ℕ → ℕ → ℕ → Bool) → Sched → Option (Turn × Sched)
unfolding sample take_signal exit
deliver_turn prepare s = elim (find_pid s.current_pid s.run_queue) [
  | none ↦ some (Turn.returns, s)
  | some t ↦ elim (sample t) [
    | none ↦ none
    | some none ↦ some (Turn.returns, s)
    | some (some (bit, action, old_mask)) ↦
        let s' = update s.current_pid (take_signal bit action) s in
        let restorer = if has_flag action.flags sa_restorer then action.restorer else 0 in
        if action.handler == 0
        then (if has_flag sigdfl_ignore (2 ^ bit)
            then some (Turn.continues, s')
            else some (Turn.exits, exit (128 + (bit + 1)) s'))
        else if action.handler == 1
        then some (Turn.continues, s')
        else if prepare (bit + 1) action.handler restorer old_mask
        then some (Turn.returns, s')
        else some (Turn.exits, exit (128 + sigsegv) s')
  ]
]

-- The result of the two calls: 0, -22 or -3, and what is written to the caller's memory.
-- `sys_sigaction`, where `act` is what the caller's pointer leads to, if it is not null. A signal number
-- past the table is a panic, here `none`.
unfoldable sys_sigaction :
    ℕ → Option SigAction → Bool → Sched → Option (Delivery × Option SigAction × Sched)
sys_sigaction signum act wants_old s = elim (find_pid s.current_pid s.run_queue) [
  | none ↦ some (Delivery.esrch, none, s)
  | some t ↦ elim (get_elem? t.signal_actions (sub64 signum 1)) [
    | none ↦ elim act [
      | none ↦ if wants_old then none else some (Delivery.delivered, none, s)
      | some new ↦ none
    ]
    | some old ↦ some (
      Delivery.delivered,
      (if wants_old then some old else none),
      elim act [
        | none ↦ s
        | some new ↦
            update s.current_pid
              (λ u. record u { signal_actions = set u.signal_actions (sub64 signum 1) new }) s
      ],
    )
  ]
]

-- The mask for `how`, 0 to block, 1 to unblock and 2 to set; `none` for any other.
unfoldable next_mask : ℕ → ℕ → ℕ → Option ℕ
next_mask how set mask =
    if how == 0
    then some (bit_or mask set)
    else if how == 1
    then some (and_not mask set)
    else if how == 2
    then some set
    else none

-- `sys_sigprocmask`, where `set` is what the caller's pointer leads to, if it is not null.
unfoldable sys_sigprocmask : ℕ → Option ℕ → Bool → Sched → Delivery × Option ℕ × Sched
unfolding next_mask
sys_sigprocmask how set wants_old s = elim (find_pid s.current_pid s.run_queue) [
  | none ↦ (Delivery.esrch, none, s)
  | some t ↦
      let old = if wants_old then some t.signal_mask else none in
      elim set [
        | none ↦ (Delivery.delivered, old, s)
        | some new ↦ elim (next_mask how new t.signal_mask) [
          | none ↦ (Delivery.einval, old, s)
          | some mask ↦ (
            Delivery.delivered,
            old,
            update s.current_pid (λ u. record u { signal_mask = mask }) s,
          )
        ]
      ]
]
