-- ===== src/Ipc/Tests.antt =====
-- The theorems on ports at concrete tables, and runs of the code.
use cyanos.Base.{refl, some, none, ◌≡◌, [], arith, set, ◌↔◌, ◌∷◌, replicate}
use cyanos.Base.Circle.{fifo_push}
use cyanos.Ipc.Message
use cyanos.Ipc.Message.{Message}
use cyanos.Sched.RunQueue
use cyanos.Ipc.Port
use cyanos.Ipc.Port.{
  PortTable, State, PortEntry, bucket, probe, claim, create, find, is_owner, close, send, recv_as,
  empty_entry, ok, queue_depth, live_buckets, probe_limit, find_from,
}
use cyanos.Ipc.Port.Table.{
  IsValid, new-IsValid, set-IsValid, claim-HasMessages, empty_entry-HasMessages,
}
use cyanos.Ipc.Port.Transfer.{Serves, send_refines, recv_as_refines, Serves-send}
use cyanos.Ipc.Port.Probe.{Probed, find_iff}
use cyanos.Ipc.Port.Close.{find-close_behind}

abbrev port_seven : PortEntry
port_seven = claim 0 7 empty_entry

-- Port 0, of task 7, in bucket 0.
abbrev one_port : PortTable
one_port = record { buckets = set Port.new.buckets 0 port_seven; next_id = 1 }

one_port-IsValid : IsValid one_port
one_port-IsValid =
    set-IsValid Port.new 0 1 port_seven [] new-IsValid (omega arith) (omega arith)
      (claim-HasMessages 0 7 empty_entry empty_entry-HasMessages)

-- Ports 0 and 4096, whose probe paths both start at bucket 0.
abbrev two_ports : PortTable
two_ports = record { buckets = set one_port.buckets 1 (claim 4096 8 empty_entry); next_id = 0 }

two_ports-IsValid : IsValid two_ports
two_ports-IsValid =
    set-IsValid one_port 1 0 (claim 4096 8 empty_entry) [] one_port-IsValid (omega arith)
      (omega arith) (claim-HasMessages 4096 8 empty_entry empty_entry-HasMessages)

abbrev idle : State
idle = record { table = two_ports; run_queue = RunQueue.new }

find_zero : find 0 two_ports ≡ some 0
unfolding find find_from bucket Port.new replicate empty_entry
find_zero = refl

find_behind : find 4096 two_ports ≡ some 1
unfolding find find_from bucket Port.new replicate empty_entry
find_behind = refl

Serves-zero : Serves two_ports 0 7 []
unfolding bucket Port.new replicate empty_entry
Serves-zero = record {
  idx = 0;
  found = find_zero;
  owned = refl;
  holds = claim-HasMessages 0 7 empty_entry empty_entry-HasMessages;
}

Serves-behind : Serves two_ports 4096 8 []
unfolding bucket Port.new replicate empty_entry
Serves-behind = record {
  idx = 1;
  found = find_behind;
  owned = refl;
  holds = claim-HasMessages 4096 8 empty_entry empty_entry-HasMessages;
}

abbrev hello : Message
hello = record (Message.empty) { tag = 5; reply_port = 4096 }

send_refines_example :
    ((send 0 hello idle).0 ≡ ok)
    × Serves (send 0 hello idle).1.table 0 7 (hello ∷ [])
    × ((send 0 hello idle).1.run_queue ≡ RunQueue.unblock_port 0 RunQueue.new)
unfolding fifo_push
send_refines_example = send_refines 0 7 hello [] idle two_ports-IsValid Serves-zero

Serves-send_example : Serves (send 0 hello idle).1.table 4096 8 []
Serves-send_example =
    Serves-send 0 4096 8 hello [] idle two_ports-IsValid (omega arith) Serves-behind

recv_as_refines_example :
    ((recv_as 0 8 two_ports).0 ≡ none) × Serves (recv_as 0 8 two_ports).1 0 7 []
recv_as_refines_example = recv_as_refines 0 7 8 [] two_ports two_ports-IsValid Serves-zero

find_iff_example : (find 4096 two_ports ≡ some 1) ↔ Probed two_ports.buckets 4096 0 probe_limit 1
find_iff_example = find_iff 4096 1 two_ports

find-close_behind_example :
    (find 4096 (close 0 two_ports) ≡ none)
    × (bucket (close 0 two_ports).buckets 1 ≡ bucket two_ports.buckets 1)
find-close_behind_example =
    find-close_behind 0 4096 1 0 two_ports two_ports-IsValid find_zero find_behind (omega arith)
      (omega arith)
