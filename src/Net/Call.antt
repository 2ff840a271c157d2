-- ===== src/Net/Call.antt =====
-- The queries of addresses and options, and the dispatch `handle`, of servers/net/src/lib.rs.
use cyanos.Base.{ℕ, ◌&&◌, ◌||◌, ◌==◌, if◌then◌else◌, replicate}
use cyanos.Ipc.Message.{Message}
use cyanos.Server.Memory.{store, store_word}
use cyanos.Server.Wire.{Reply, value, errno, arg, make_reply}
use cyanos.Net.{Net}
use cyanos.Net.Bind.{handle_socket, handle_bind, handle_listen}
use cyanos.Net.Close.{handle_shutdown, handle_close, handle_close_all}
use cyanos.Net.Connect.{handle_connect, handle_accept, handle_socketpair}
use cyanos.Net.Transfer.{handle_send, handle_recv, handle_sendmsg, handle_recvmsg}

unfoldable pub handle_getsockname : ℕ → ℕ → Net → Reply × Net
unfolding store store_word replicate
handle_getsockname addr_ptr addrlen_ptr v =
    if (addr_ptr == 0) || (addrlen_ptr == 0) then (errno 14, v) else (
      value 0,
      record v { memory = store_word 4 addrlen_ptr 2 (store addr_ptr (replicate 2 0) v.memory) },
    )

abbrev store_if : ℕ → ℕ → Net → Net
store_if p n v = if p == 0 then v else record v { memory = store_word 4 p n v.memory }

-- `SOL_SOCKET` is 1 and `SO_ERROR` 4.
unfoldable pub handle_getsockopt : ℕ → ℕ → ℕ → ℕ → Net → Reply × Net
unfolding store_word
handle_getsockopt level optname optval_ptr optlen_ptr v =
    if (level == 1) && (optname == 4)
    then (value 0, store_if optlen_ptr 4 (store_if optval_ptr 0 v))
    else (value 0, v)

unfoldable pub dispatch : ℕ → Message → Net → Reply × Net
dispatch pid msg v =
    let a : ℕ → ℕ = λ n. arg msg n in
    if msg.tag == 48
    then handle_socket pid (a 0) (a 1) v
    else if msg.tag == 49
    then handle_bind pid (a 0) (a 1) (a 2) v
    else if msg.tag == 50
    then handle_listen pid (a 0) v
    else if msg.tag == 51
    then handle_accept pid (a 0) (a 1) v
    else if msg.tag == 52
    then handle_connect pid (a 0) (a 1) (a 2) v
    else if msg.tag == 53
    then handle_send pid (a 0) (a 1) (a 2) v
    else if msg.tag == 54
    then handle_recv pid (a 0) (a 1) (a 2) v
    else if msg.tag == 55
    then handle_sendmsg pid (a 0) (a 1) v
    else if msg.tag == 56
    then handle_recvmsg pid (a 0) (a 1) v
    else if msg.tag == 57
    then handle_shutdown pid (a 0) v
    else if (msg.tag == 58) || (msg.tag == 59)
    then handle_getsockname (a 1) (a 2) v
    else if msg.tag == 60
    then handle_socketpair pid (a 0) (a 3) v
    else if msg.tag == 61
    then (value 0, v)
    else if msg.tag == 62
    then handle_getsockopt (a 1) (a 2) (a 3) (a 4) v
    else if msg.tag == 63
    then handle_close_all pid v
    else if msg.tag == 64
    then handle_close pid (a 0) v
    else (errno 38, v)

unfoldable pub handle : ℕ → Message → Net → Message × Net
unfolding dispatch make_reply
handle pid msg v = let (r, v') = dispatch pid msg v in (make_reply r, v')
