-- ===== src/Tcp/Stack/Delivery.antt =====
-- What the bytes of a segment lead to at the host that they reach: ip.c, tcp.c and tcp_sock.c of
-- Lab15/16-tcp_stack.
use ucas_computer_network_la.Prelude.{ℕ, ◌≡◌, refl, not, some, arith, ◌==◌, ==_refl, if◌then◌else◌}
use ucas_computer_network_la.Wire.{RawPacket, make_packet}
use ucas_computer_network_la.Wire.Roundtrip.{
  InRange, make_packet-daddr, make_packet-protocol, receive_packet-make_packet,
}
use ucas_computer_network_la.Tcp.{Segment, established, tcp_cb_init}
use ucas_computer_network_la.Tcp.Input.{tcp_process}
use ucas_computer_network_la.Tcp.Table.{Sock, TcpHashTable, init_tcp_stack, tcp_hash}
use ucas_computer_network_la.Tcp.Table.Search.{is_of, tcp_sock_lookup-entered, tcp_sock_lookup-init}
use ucas_computer_network_la.Tcp.Table.Lookup.{IsWhole}
use ucas_computer_network_la.Tcp.Stack.{
  Stack, to_socket, handle_tcp_packet, tcp_packet, incorrect_destination, handle_ip_packet,
  processed_by, null_socket,
}

handle_tcp_packet-make_packet :
    (iss id old : ℕ) (stack : Stack) (s : Segment)
    → InRange s
    → handle_tcp_packet iss stack (make_packet id old s) ≡ to_socket iss stack (tcp_cb_init s)
unfolding handle_tcp_packet
handle_tcp_packet-make_packet iss id old stack s r =
    rw (receive_packet-make_packet id old s r, handle_tcp_packet) refl

-- What should become of the bytes `p` of a segment `s` at a host with `stack`, once the connection
-- `tsk` has been entered in its tables, which are then `t`.
abbrev pub Delivers :
    (iss iface_ip : ℕ) → Stack → Sock → TcpHashTable → RawPacket → Segment → Type 0
Delivers iss iface_ip stack tsk t p s =
    handle_ip_packet iss iface_ip (record stack { tcp_sock_table = t }) p ≡ (
      if not (s.daddr == iface_ip)
      then incorrect_destination
      else if is_of tsk s
      then tcp_packet (processed_by tsk.id (tcp_process iss (stack.socks tsk.id) (tcp_cb_init s)))
      else handle_ip_packet iss iface_ip stack p)

-- Once tcp_hash has entered a connection, the bytes of a segment of that connection, at the host with
-- its destination address, are processed by the socket that was entered, as the segment that they were
-- made of; what becomes of any other segment to that host is what it was before. Any other host drops
-- the bytes. And where no socket is in the tables, a segment leads to a null pointer in tcp_process.
-- The tables have their 256 lists, and the fields of the segment are in range.
pub handle_ip_packet-make_packet :
    (iss iface_ip id old : ℕ) (stack : Stack) (tsk : Sock) (t : TcpHashTable) (s : Segment)
    → InRange s
    → IsWhole stack.tcp_sock_table
    → tcp_hash established tsk stack.tcp_sock_table ≡ some t
    → Delivers iss iface_ip stack tsk t (make_packet id old s) s
      × (handle_ip_packet iss s.daddr
            (record stack { tcp_sock_table = init_tcp_stack })
            (make_packet id old s)
          ≡ tcp_packet null_socket)
unfolding handle_ip_packet to_socket
handle_ip_packet-make_packet iss iface_ip id old stack tsk t s r v e =
    let to = make_packet-daddr id old s r in
    let tcp = make_packet-protocol id old s in
    let after =
      handle_tcp_packet-make_packet iss id old (record stack { tcp_sock_table = t }) s r in
    let before = handle_tcp_packet-make_packet iss id old stack s r in
    let alone =
      handle_tcp_packet-make_packet iss id old (record stack { tcp_sock_table = init_tcp_stack }) s
        r in
    let found = tcp_sock_lookup-entered tsk stack.tcp_sock_table t s v e in
    (
      rw (to, tcp, after, before, found, to_socket) (ground arith),
      rw (to, tcp, alone, tcp_sock_lookup-init (tcp_cb_init s), ==_refl s.daddr, to_socket) refl,
    )
