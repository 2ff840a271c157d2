-- ===== src/Ipc/Channel.antt =====
-- ipc/src/channel.rs: a pair of ports of one process.
use cyanos.Base.{ℕ, Option, none, some}
use cyanos.Ipc.Port.{PortTable, create, close}

pub record Channel : Type 0 where
  pub client : ℕ
  pub server : ℕ

-- When the second port cannot be created the first is closed again.
unfoldable pub new : ℕ → PortTable → Option Channel × PortTable
new pid t =
    let (client, t') = create pid t in
    elim client [
      | none ↦ (none, t')
      | some c ↦
          let (server, t'') = create pid t' in
          elim server [
            | none ↦ (none, close c t'')
            | some s ↦ (some (record { client = c; server = s }), t'')
          ]
    ]
