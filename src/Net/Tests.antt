-- ===== src/Net/Tests.antt =====
-- Witnesses of the properties of the network server.
use cyanos.Base.{ℕ, ◌%◌, ◌≡◌, refl, Bool, true, false, some, [], ◌∷◌, arith, replicate, locate}
use cyanos.Server.Memory.{load}
use cyanos.Server.Ring
use cyanos.Server.Ring.Refine.{put_all_refines, new-Holds}
use cyanos.Server.Wire.{value}
use cyanos.Net.{
  Net, SockEntry, ProcSockTable, connected, start, empty_table, empty_sock, new_conn, put_sock,
  open_conn, sock_at, ring_size,
}
use cyanos.Net.Transfer.{handle_send, handle_recv}
use cyanos.Net.Close.{handle_close}
use cyanos.Net.Delivery.{Linked, IsSide, handle_recv-handle_send}
use cyanos.Net.Reuse.{handle_close_shares, LowerInUse}

-- A memory whose byte at an address is the lowest one of the address.
abbrev ramp : ℕ → ℕ
ramp a = a % 256

abbrev side : Bool → SockEntry
side is_a = record empty_sock { state = connected 0 is_a; in_use = true; domain = 1 }

abbrev table : ℕ → Bool → ProcSockTable
table pid is_a = put_sock 0 (side is_a) (record empty_table { pid = pid; in_use = true })

-- Processes 5 and 6 hold the two ends of a connection at descriptor 256, in which two bytes wait for
-- the process 5.
abbrev net : Net
net = record (start ramp) {
  tables = table 5 true ∷ table 6 false ∷ [];
  conns =
      record new_conn {
        in_use = true;
        ring_ba = (Ring.put_all ring_size (Ring.new ring_size) (21 ∷ 22 ∷ [])).1;
      }
      ∷ [];
}

net-Linked : Linked 0 true net [] (21 ∷ 22 ∷ [])
unfolding new_conn
net-Linked = record {
  in_range = omega arith;
  in_use = refl;
  sends = new-Holds ring_size (omega arith);
  receives = (put_all_refines (21 ∷ 22 ∷ []) (new-Holds ring_size (omega arith))).1;
}

five : IsSide 5 256 0 true net
unfolding sock_at locate empty_table start replicate
five = (0, 0, table 5 true, side true, refl, refl, refl)

six : IsSide 6 256 0 false net
unfolding sock_at locate empty_table start replicate
six = (0, 1, table 6 false, side false, refl, refl, refl)

handle_recv-handle_send_example :
    (v1 v2 : Net) × (handle_send 5 256 100 7 net ≡ (value 7, v1))
    × (handle_recv 6 256 300 7 v1 ≡ (value 7, v2))
    × (load 7 300 v2.memory ≡ load 7 100 net.memory)
handle_recv-handle_send_example =
    handle_recv-handle_send 5 256 6 256 0 true (21 ∷ 22 ∷ []) 100 300 7 net net-Linked five six
      (omega arith)

no_lower : LowerInUse 0 net
no_lower j c h at = absurd (omega (arith, h))

handle_close_shares_example :
    (w : Net) × (open_conn (handle_close 5 256 net).1 ≡ some (0, w)) × IsSide 6 256 0 false w
handle_close_shares_example =
    handle_close_shares 5 256 6 256 0 true net five six (omega arith) (omega arith) no_lower
