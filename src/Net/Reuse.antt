-- ===== src/Net/Reuse.antt =====
-- A close of one end of a connection of servers/net/src/lib.rs gives the connection back while the
-- other end still names it.
use cyanos.Base.{
  ℕ, ◌<◌, ◌≡◌, refl, ◌≢◌, Bool, true, false, not, some, arith, length, get_elem?, set, position, ap,
  subst, ◌∙◌, inl, inr, none, leb, if◌then◌else◌, Option-cases, get_or, Located, locate-Located,
  locate-set_other, locate-set_first,
}
use cyanos.Server.Wire.{value}
use cyanos.Net.{
  Net, SockEntry, ProcSockTable, UnixConn, sock_at, find_tbl, is_of, conn_at, put_conn, new_conn,
  conn_unused, open_conn, write_sock, put_sock, empty_sock, Tables, max_socks,
}
use cyanos.Net.Close.{handle_close, release_sock}
use cyanos.Net.Delivery.{IsSide}

-- Every connection before this one is in use.
abbrev pub LowerInUse : ℕ → Net → Type 0
LowerInUse idx v = (j : ℕ) (c : UnixConn) → j < idx → get_elem? v.conns j ≡ some c → c.in_use ≡ true

sock_at-find_tbl :
    (pid slot i : ℕ) (t : ProcSockTable) (s : SockEntry) (tbls : Tables)
    → sock_at pid slot tbls ≡ some (i, t, s)
    → find_tbl pid tbls ≡ some (i, t)
unfolding sock_at
sock_at-find_tbl pid slot i t s tbls h = elim (Option-cases (find_tbl pid tbls)) [
  | inl gone ↦ absurd (ground arith)
  | inr ((j, r), found) ↦ ground arith
]

-- A write to the table of another process is not seen.
sock_at-set_other :
    (pid pid' slot i : ℕ) (t t' : ProcSockTable) (tbls : Tables)
    → find_tbl pid tbls ≡ some (i, t)
    → t'.pid ≡ t.pid
    → pid' ≢ pid
    → sock_at pid' slot (set tbls i t') ≡ sock_at pid' slot tbls
unfolding sock_at
sock_at-set_other pid pid' slot i t t' tbls found same other =
    let (row, test, before) =
      subst (Located (is_of pid) tbls) found (locate-Located (is_of pid) tbls) in
    let kept = locate-set_other (is_of pid') tbls i t t' row (ground arith) (ground arith) in
    ap
      (λ o. elim o [
        | none ↦ none
        | some (i, t) ↦
            if leb max_socks slot
            then none
            else let s = get_or t.socks slot empty_sock in if s.in_use then some (i, t, s) else none
      ])
      kept

-- After a process has closed its end of a connection, with every lower connection in use, the next
-- connection that is made gets the same index; a process that holds the other end still holds it, and
-- so shares the connection with the new pair.
pub handle_close_shares :
    (pid fd pid' fd' idx : ℕ) (is_a : Bool) (v : Net)
    → IsSide pid fd idx is_a v
    → IsSide pid' fd' idx (not is_a) v
    → pid' ≢ pid
    → idx < length v.conns
    → LowerInUse idx v
    → (w : Net) × (open_conn (handle_close pid fd v).1 ≡ some (idx, w))
      × IsSide pid' fd' idx (not is_a) w
unfolding handle_close open_conn position
handle_close_shares pid fd pid' fd' idx is_a v (slot, i, t, s, slot_eq, at, conn)
      (slot', i', t', s', slot_eq', at', conn') other h lower =
    let v0 : Net = write_sock i t slot empty_sock v in
    let freed : UnixConn = record (conn_at idx v) { in_use = false } in
    let v1 : Net = put_conn idx freed v0 in
    let result : handle_close pid fd v ≡ (value 0, v1) =
      rw (slot_eq, at, conn, handle_close, release_sock) refl in
    let found =
      locate-set_first conn_unused v.conns idx freed h (λ j c l at. ap not (lower j c l at)) refl in
    let w : Net = record v1 { conns = set v1.conns idx (record new_conn { in_use = true }) } in
    let kept =
      sock_at-set_other pid pid' slot' i t (put_sock slot empty_sock t) v.tables
        (sock_at-find_tbl pid slot i t s v.tables at) refl other in
    (
      w,
      ap (λ r. open_conn r.1) result ∙ rw (found, open_conn, position) refl,
      (slot', i', t', s', slot_eq', kept ∙ at', conn'),
    )
