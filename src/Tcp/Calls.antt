-- ===== src/Tcp/Calls.antt =====
-- The calls of an application on a socket, tcp_sock.c of Lab15/16-tcp_stack. A call that sleeps is cut
-- where it does: what it does before, and what it does once it is woken.
pub mod Sending
pub mod Accepting
pub mod Lifecycle
use ucas_computer_network_la.Prelude.{
  ℕ, zero, suc, ◌+◌, ◌-◌, ◌*◌, ◌%◌, ◌^◌, Bool, true, false, not, List, [], ◌∷◌, ◌++◌, Option, none,
  some, ltb, leb, ◌==◌, if◌then◌else◌, min, take, drop, length, get_or,
}
use ucas_computer_network_la.Route.{RtEntry, longest_prefix_match}
use ucas_computer_network_la.Tcp.{
  TcpSock, TcpState, Segment, listen, syn_sent, established, mss, flag_syn, flag_ack, tcp_set_state,
  tcp_send_packet, tcp_send_control_packet,
}
use ucas_computer_network_la.Tcp.Table.{
  Sock, TcpHashTable, tcp_get_port, tcp_sock_set_sport, tcp_hash, tcp_hash_function,
}

-- The entry of the tables for socket number `id`.
pub entry_of : ℕ → TcpSock → Sock
entry_of id tsk = record {
  id = id;
  sk_sip = tsk.sk_sip;
  sk_dip = tsk.sk_dip;
  sk_sport = tsk.sk_sport;
  sk_dport = tsk.sk_dport;
}

-- tcp_sock_connect up to its sleep. The socket is entered into the table of bound ports by the choice
-- of the port and then once more: its node becomes its own successor, so that what the list of
-- `bind_loop` held before is lost, and a search there for a port that is not this one does not end.
-- `no_route` is a null pointer: what longest_prefix_match gives is read without a test.
pub data Connect : Type 0 where
  no_port no_route : Connect
  asleep : TcpSock → TcpHashTable → (bind_loop : ℕ) → Segment → Connect

-- The tables after tcp_hash, whose result is not looked at.
pub hashed : TcpHashTable → Option TcpHashTable → TcpHashTable
hashed t none = t
hashed t (some t') = t'

-- `ips` are the addresses of the interfaces, `iss` the random number of tcp_new_iss.
unfoldable pub tcp_sock_connect :
    (id iss ip port : ℕ) → List RtEntry → (ips : List ℕ) → TcpHashTable → TcpSock → Connect
tcp_sock_connect id iss ip port rtable ips t tsk =
    elim (tcp_sock_set_sport (entry_of id tsk) (tcp_get_port t) t) [
      | none ↦ no_port
      | some (bound, t') ↦ elim (longest_prefix_match ip rtable) [
        | none ↦ no_route
        | some entry ↦
            let tsk' : TcpSock = record tsk {
              sk_sip = get_or ips entry.iface 0;
              sk_sport = bound.sk_sport;
              sk_dport = port;
              sk_dip = ip;
              iss = iss;
              snd_nxt = iss;
              state = syn_sent;
            } in
            let (tsk'', packet) = tcp_send_control_packet tsk' flag_syn in
            asleep tsk'' (hashed t' (tcp_hash syn_sent (entry_of id tsk') t'))
              (tcp_hash_function 0 0 bound.sk_sport 0) packet
      ]
    ]

-- What follows the sleep.
unfoldable pub tcp_sock_connected : TcpSock → TcpSock × Segment
tcp_sock_connected tsk = tcp_send_control_packet (tcp_set_state tsk established) flag_ack

unfoldable pub tcp_sock_listen : (id backlog : ℕ) → TcpHashTable → TcpSock → TcpSock × TcpHashTable
tcp_sock_listen id backlog t tsk =
    let tsk' : TcpSock = tcp_set_state (record tsk { backlog = backlog }) listen in
    (tsk', hashed t (tcp_hash listen (entry_of id tsk') t))

-- A listening socket with its queue of children, each with its number.
pub record Listener : Type 0 where
  pub sock : TcpSock
  pub accept_queue : List (ℕ × TcpSock)
  pub accept_backlog : ℕ

pub tcp_sock_accept_queue_full : Listener → Bool
tcp_sock_accept_queue_full l = leb l.sock.backlog l.accept_backlog

pub tcp_sock_accept_enqueue : ℕ × TcpSock → Listener → Listener
tcp_sock_accept_enqueue child l = record l {
  accept_queue = l.accept_queue ++ child ∷ [];
  accept_backlog = l.accept_backlog + 1;
}

-- tcp_sock_accept; `none` where it sleeps. The child becomes established, whatever its state was.
pub tcp_sock_accept : Listener → TcpHashTable → Option ((ℕ × TcpSock) × Listener × TcpHashTable)
tcp_sock_accept l t = elim l.accept_queue [
  | [] ↦ none
  | (id, child) ∷ rest ↦
      let child' = tcp_set_state child established in
      some (
        (id, child'),
        record l { accept_queue = rest; accept_backlog = l.accept_backlog - 1 },
        hashed t (tcp_hash established (entry_of id child') t),
      )
]

-- `strlen`, of what is in memory from `buf` on.
unfoldable pub strlen : List ℕ → ℕ
strlen [] = 0
strlen (b ∷ bs) = let rest = strlen bs in if b == 0 then 0 else suc rest

-- `data_len`.
pub next_len : List ℕ → (len sent : ℕ) → ℕ
next_len buf len sent = min mss (min len (strlen buf) - sent)

-- A segment is sent, and then the window has room again: `wait` is what the other threads make of the
-- socket by then.
pub write_one : (wait : TcpSock → TcpSock) → List ℕ → TcpSock → TcpSock × Segment
write_one wait data_bytes tsk =
    let (tsk', packet) = tcp_send_packet tsk data_bytes in
    (if ltb tsk'.snd_wnd (mss * tsk'.inflight) then wait tsk' else tsk', packet)

-- One more segment before those of the rest of the loop.
pub put_packet : Segment → Option (ℕ × TcpSock × List Segment) → Option (ℕ × TcpSock × List Segment)
put_packet packet none = none
put_packet packet (some (n, tsk, packets)) = some (n, tsk, packet ∷ packets)

-- The loop of tcp_sock_write with `fuel` turns to go, `sent` bytes being sent.
pub write_from :
    ℕ
    → (wait : TcpSock → TcpSock) → List ℕ
    → (len sent : ℕ) → TcpSock
    → Option (ℕ × TcpSock × List Segment)
write_from zero wait buf len sent tsk = if ltb sent len then none else some (sent, tsk, [])
write_from (suc fuel) wait buf len sent tsk =
    let data_len = next_len buf len sent in
    let (tsk', packet) = write_one wait (take data_len (drop sent buf)) tsk in
    let rest = write_from fuel wait buf len (sent + data_len) tsk' in
    if ltb sent len then put_packet packet rest else some (sent, tsk, [])

pub tcp_sock_write :
    ℕ → (wait : TcpSock → TcpSock) → List ℕ → ℕ → TcpSock → Option (ℕ × TcpSock × List Segment)
tcp_sock_write fuel wait buf len tsk = write_from fuel wait buf len 0 tsk
