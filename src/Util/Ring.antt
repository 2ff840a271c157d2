-- ===== src/Util/Ring.antt =====
-- lib/src/ring_buffer.rs: the single-producer single-consumer ring of `N` slots, of which one
-- stays unused.
pub mod Refine
use cyanos.Base.{
  ℕ, ◌+◌, ◌%◌, Bool, true, false, Option, none, some, List, ◌==◌, if◌then◌else◌, get_or, set,
  replicate,
}

pub record RingBuffer {ℓ} (T : Type ℓ) : Type ℓ where
  pub buf : List (Option T)
  pub head : ℕ
  pub tail : ℕ

module _ {ℓ} {T : Type ℓ} (n : ℕ) where
  pub new : RingBuffer T
  new = record { buf = replicate n none; head = 0; tail = 0 }

  pub push : T → RingBuffer T → Bool × RingBuffer T
  push val r =
      let next = (r.tail + 1) % n in
      if next == r.head
      then (false, r)
      else (true, record r { buf = set r.buf r.tail (some val); tail = next })

  pub pop : RingBuffer T → Option T × RingBuffer T
  pop r = if r.head == r.tail then (none, r) else (
    get_or r.buf r.head none,
    record r { buf = set r.buf r.head none; head = (r.head + 1) % n },
  )

is_empty {ℓ} : {T : Type ℓ} → RingBuffer T → Bool
is_empty r = r.head == r.tail
