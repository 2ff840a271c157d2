-- ===== src/Server/Wire.antt =====
-- The helpers `arg` and `make_reply` that each server of servers/ has: arguments and results are
-- little-endian words in the bytes of a message. The line ranges are those of the file server.
use cyanos.Base.{
  ℕ, zero, suc, ◌+◌, ◌-◌, ◌*◌, ◌/◌, ◌%◌, ◌^◌, ◌≡◌, List, [], ◌∷◌, ◌++◌, arith, drop, take,
}
use cyanos.Ipc.Message
use cyanos.Ipc.Message.{Message}

-- `to_le_bytes` of a number with `n` bytes.
unfoldable pub to_le : ℕ → ℕ → List ℕ
to_le zero v = []
to_le (suc n) v = v % 256 ∷ to_le n (v / 256)

unfoldable pub from_le : List ℕ → ℕ
from_le [] = 0
from_le (b ∷ bs) = b + 256 * from_le bs

pub data Reply : Type 0 where
  value : ℕ → Reply
  errno : ℕ → Reply

-- A result as the 64-bit word of an `i64`: an error number is negated.
abbrev word_of : Reply → ℕ
word_of (value v) = v % 2 ^ 64
word_of (errno e) = (2 ^ 64 - e) % 2 ^ 64

-- Every use has `n` below 7, so that the slice is inside the 56 bytes.
unfoldable pub arg : Message → ℕ → ℕ
arg msg n = from_le (take 8 (drop (n * 8) msg.bytes))

unfoldable pub make_reply : Reply → Message
make_reply r = record Message.empty { bytes = to_le 8 (word_of r) ++ drop 8 Message.empty.bytes }

-- `from_le` reads back what `to_le` writes, modulo the size of the word.
pub from_le-to_le : (v : ℕ) → from_le (to_le 8 v) ≡ v % 2 ^ 64
unfolding to_le from_le
from_le-to_le v = omega arith

-- The first word of the reply that a server makes of a result is the `i64` of that result.
arg-make_reply : (r : Reply) → arg (make_reply r) 0 ≡ word_of r
unfolding arg make_reply to_le from_le
arg-make_reply (value v) = omega arith
arg-make_reply (errno e) = omega arith
