-- ===== src/Ipc/Message.antt =====
-- ipc/src/message.rs.
use cyanos.Base.{ℕ, Option, none, List, replicate}

abbrev message_inline_bytes : ℕ
message_inline_bytes = 56

pub record Message : Type 0 where
  pub tag : ℕ
  pub reply_port : ℕ
  pub bytes : List ℕ
  pub cap : Option ℕ

unfoldable pub empty : Message
unfolding replicate
empty = record { tag = 0; reply_port = 0; bytes = replicate message_inline_bytes 0; cap = none }
