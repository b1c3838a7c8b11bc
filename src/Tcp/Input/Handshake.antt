-- ===== src/Tcp/Input/Handshake.antt =====
-- The opening of a connection: connect and listen of tcp_sock.c with tcp_process of tcp_in.c, both of
-- Lab15/16-tcp_stack.
use ucas_computer_network_la.Prelude.{
  ℕ, ◌≡◌, refl, List, [], ◌∷◌, get_or, Option-cases, inl, inr, Option, none, arith,
}
use ucas_computer_network_la.Route.{RtEntry, longest_prefix_match}
use ucas_computer_network_la.Tcp.{
  TcpSock, Segment, established, alloc_tcp_sock, tcp_cb_init, tcp_set_state,
  tcp_send_control_packet, tcp_sndbuf_push, tcp_sndbuf_pop, syn_sent, flag_syn, tcp_init_hdr,
  has_flag, less_than_32b, less_or_equal_32b, wake_connect, new_child, transmit, accept_enqueue,
  wake_accept, wake_send,
}
use ucas_computer_network_la.Tcp.Table.{Sock, TcpHashTable, tcp_sock_set_sport, tcp_get_port}
use ucas_computer_network_la.Tcp.Calls.{
  Connect, no_port, no_route, asleep, entry_of, tcp_sock_connect, tcp_sock_connected,
  tcp_sock_listen,
}
use ucas_computer_network_la.Tcp.Input.{
  processed, tcp_process, dispatch, open_child, handle_ack, new_ack, pop_acked, after_pop, grow,
  duplicate_ack, tcp_update_window, tcp_update_window_safe, process_ack, just, followed_by,
}

-- A socket that listens on a port.
abbrev pub listener : (id backlog port : ℕ) → TcpHashTable → TcpSock
listener id backlog port t =
    (tcp_sock_listen id backlog t (record alloc_tcp_sock { sk_sport = port })).0

-- Both ends are established, each expects the number that the other sends next, and each has the
-- other's address and port.
abbrev pub Synchronised : TcpSock → TcpSock → Type 0
Synchronised c s =
    (c.state ≡ established)
    × (s.state ≡ established)
    × (c.rcv_nxt ≡ s.snd_nxt)
    × (s.rcv_nxt ≡ c.snd_nxt)
    × (c.sk_sip ≡ s.sk_dip)
    × (c.sk_dip ≡ s.sk_sip)
    × (c.sk_sport ≡ s.sk_dport)
    × (c.sk_dport ≡ s.sk_sport)

-- The four steps after a SYN: the listening socket makes a child, whose SYN and ACK wakes the client;
-- the client is established and sends an ACK; with it the child is established and goes to the queue
-- of the sockets to accept.
abbrev pub Opens : (r q : ℕ) → TcpSock → TcpSock → Segment → Type 0
Opens r q l c syn =
    (child : TcpSock) × (child' : TcpSock) × (c' : TcpSock) × (l' : TcpSock) × (reply : Segment)
    × (tcp_process r l (tcp_cb_init syn) ≡ processed l' (new_child child ∷ transmit reply ∷ []))
    × (tcp_process q c (tcp_cb_init reply) ≡ processed c' (wake_connect ∷ []))
    × (tcp_process r child (tcp_cb_init (tcp_sock_connected c').1)
        ≡ processed child' (wake_send ∷ accept_enqueue ∷ wake_accept ∷ []))
    × Synchronised (tcp_sock_connected c').0 child'

abbrev pub client : (iss sip sport dip dport : ℕ) → TcpSock
client iss sip sport dip dport = record alloc_tcp_sock {
  sk_sip = sip;
  sk_sport = sport;
  sk_dport = dport;
  sk_dip = dip;
  iss = iss;
  snd_nxt = iss;
  state = syn_sent;
}

client-Opens :
    (r q id backlog port iss sip sport dip : ℕ) (t : TcpHashTable)
    → Opens r q
        (listener id backlog port t)
        (tcp_send_control_packet (client iss sip sport dip port) flag_syn).0
        (tcp_send_control_packet (client iss sip sport dip port) flag_syn).1
unfolding tcp_process dispatch open_child handle_ack new_ack pop_acked after_pop grow duplicate_ack
    tcp_update_window tcp_update_window_safe process_ack just followed_by alloc_tcp_sock tcp_cb_init
    tcp_set_state tcp_send_control_packet tcp_sndbuf_push tcp_sndbuf_pop has_flag less_than_32b
    less_or_equal_32b tcp_sock_connected tcp_sock_listen tcp_init_hdr
client-Opens r q id backlog port iss sip sport dip t =
    (_, _, _, _, _, refl, refl, refl, (refl, refl, refl, omega arith, refl, refl, refl, refl))

-- What is asked of a connect: it fails for want of a port, reads through a null pointer for want of a
-- route, or leads to a connection.
abbrev pub Leads :
    (r q : ℕ) → TcpSock → Option (Sock × TcpHashTable) → Option RtEntry → Connect → Type 0
Leads r q l bound route no_port = bound ≡ none
Leads r q l bound route no_route = route ≡ none
Leads r q l bound route (asleep c t loop syn) = Opens r q l c syn

-- A connect of a new socket fails only where it is granted no port, and reads through a null pointer
-- only where there is no route; else it sends a SYN, and a new socket that listens on the port answers, and in three segments both ends are
-- established, whatever the first sequence number is: each expects the number that the other sends
-- next, and has the other's address and port.
pub tcp_sock_connect-Leads :
    (r q id backlog : ℕ) (t : TcpHashTable) (cid iss ip port : ℕ) (rtable : List RtEntry)
    (ips : List ℕ) (ct : TcpHashTable)
    → Leads r q
        (listener id backlog port t)
        (tcp_sock_set_sport (entry_of cid alloc_tcp_sock) (tcp_get_port ct) ct)
        (longest_prefix_match ip rtable)
        (tcp_sock_connect cid iss ip port rtable ips ct alloc_tcp_sock)
unfolding tcp_sock_connect
tcp_sock_connect-Leads r q id backlog t cid iss ip port rtable ips ct =
    elim (Option-cases (tcp_sock_set_sport (entry_of cid alloc_tcp_sock) (tcp_get_port ct) ct)) [
      | inl e ↦ rw (e, tcp_sock_connect, Leads) e
      | inr (b, e) ↦ elim (Option-cases (longest_prefix_match ip rtable)) [
        | inl f ↦ rw (e, f, tcp_sock_connect, Leads) f
        | inr (entry, f) ↦
            rw (e, f, tcp_sock_connect, Leads)
              (client-Opens r q id backlog port iss (get_or ips entry.iface 0) b.0.sk_sport ip t)
      ]
    ]
