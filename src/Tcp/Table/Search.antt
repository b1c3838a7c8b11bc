-- ===== src/Tcp/Table/Search.antt =====
-- What the search for a segment finds in the tables of Lab15/16-tcp_stack/tcp_sock.c.
use ucas_computer_network_la.Prelude.{
  ℕ, zero, suc, ◌≡◌, refl, subst, inl, inr, Bool, ◌&&◌, List, [], none, some, arith, ◌==◌,
  if◌then◌else◌, Bool-cases, Option-cases, get_or, replicate,
}
use ucas_computer_network_la.Hash.{hash_8bits}
use ucas_computer_network_la.Tcp.{Segment, Cb, established, tcp_cb_init}
use ucas_computer_network_la.Tcp.Table.{
  Sock, TcpHashTable, init_tcp_stack, is_connection, find_connection, find_port, tcp_hash,
  tcp_sock_lookup, tcp_sock_lookup_established, tcp_sock_lookup_listen, tcp_hash_function,
}
use ucas_computer_network_la.Tcp.Table.Lookup.{IsWhole, Entered, tcp_hash-Entered}

-- The segment comes from the peer of the connection, to its own end.
abbrev pub is_of : Sock → Segment → Bool
is_of tsk s =
    (tsk.sk_sip == s.daddr)
    && (tsk.sk_dip == s.saddr)
    && (tsk.sk_sport == s.dport)
    && (tsk.sk_dport == s.sport)

is_of-is_connection :
    (tsk : Sock) (s : Segment) → is_connection s.daddr s.saddr s.dport s.sport tsk ≡ is_of tsk s
unfolding is_connection
is_of-is_connection tsk s = ground arith

tcp_hash-listen_table :
    (tsk : Sock) (t t' : TcpHashTable)
    → tcp_hash established tsk t ≡ some t'
    → t'.listen_table ≡ t.listen_table
unfolding tcp_hash
tcp_hash-listen_table tsk t t' e = ground arith

tcp_hash-listen :
    (tsk : Sock) (t t' : TcpHashTable) (sport : ℕ)
    → tcp_hash established tsk t ≡ some t'
    → tcp_sock_lookup_listen t' sport ≡ tcp_sock_lookup_listen t sport
unfolding tcp_sock_lookup_listen
tcp_hash-listen tsk t t' sport e = rw (tcp_hash-listen_table tsk t t' e) refl

-- The search for a segment, once a connection has been entered.
pub tcp_sock_lookup-entered :
    (tsk : Sock) (t t' : TcpHashTable) (s : Segment)
    → IsWhole t
    → tcp_hash established tsk t ≡ some t'
    → tcp_sock_lookup t' (tcp_cb_init s)
      ≡ (if is_of tsk s then some tsk else tcp_sock_lookup t (tcp_cb_init s))
unfolding tcp_sock_lookup tcp_cb_init
tcp_sock_lookup-entered tsk t t' s v e =
    let entered : Entered tsk t (some t') = subst (Entered tsk t) e (tcp_hash-Entered tsk t v) in
    let found = entered.1 s.daddr s.saddr s.dport s.sport in
    let same = is_of-is_connection tsk s in
    let listens = tcp_hash-listen tsk t t' s.dport e in
    rw (tcp_sock_lookup, found, same)
      (elim (Bool-cases (is_of tsk s)) [
        | inl it ↦ rw it refl
        | inr other ↦
            rw other
              (elim (Option-cases (tcp_sock_lookup_established t s.daddr s.saddr s.dport s.sport)) [
                | inl unknown ↦ rw (tcp_sock_lookup, unknown) listens
                | inr (known, k) ↦ rw (tcp_sock_lookup, k) refl
              ])
      ])

abbrev no_socks : List Sock
no_socks = []

-- In a table of `n` empty lists nothing is found.
empty_lists : (n k : ℕ) → get_or (replicate n no_socks) k [] ≡ []
empty_lists zero k = refl
empty_lists (suc n) zero = refl
empty_lists (suc n) (suc k) = empty_lists n k

pub tcp_sock_lookup-init : (cb : Cb) → tcp_sock_lookup init_tcp_stack cb ≡ none
unfolding tcp_sock_lookup tcp_sock_lookup_listen tcp_sock_lookup_established init_tcp_stack
    find_connection find_port
tcp_sock_lookup-init cb =
    rw
      (
        empty_lists hash_8bits (tcp_hash_function cb.daddr cb.saddr cb.dport cb.sport),
        empty_lists hash_8bits (tcp_hash_function 0 0 cb.dport 0),
        tcp_sock_lookup,
        tcp_sock_lookup_established,
        tcp_sock_lookup_listen,
      )
      refl
