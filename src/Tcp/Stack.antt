-- ===== src/Tcp/Stack.antt =====
-- The way of a packet to its socket: handle_ip_packet of Lab15/16-tcp_stack/ip.c and
-- handle_tcp_packet of tcp.c there.
pub mod Delivery
use ucas_computer_network_la.Prelude.{
  ℕ, ◌*◌, ◌%◌, Bool, List, Option, none, some, ◌==◌, if◌then◌else◌, get_or,
}
use ucas_computer_network_la.Wire.{RawPacket, net32, receive_packet}
use ucas_computer_network_la.Tcp.{TcpSock, Cb}
use ucas_computer_network_la.Tcp.Table.{Sock, TcpHashTable, tcp_sock_lookup}
use ucas_computer_network_la.Tcp.Input.{Outcome, tcp_process}

-- The sockets of a host, by their numbers, and the tables that find them.
pub record Stack : Type 0 where
  pub tcp_sock_table : TcpHashTable
  pub socks : ℕ → TcpSock

-- A segment is dropped for its checksum; or no socket is found, and tcp_process reads through a null
-- pointer; or a socket processes it.
pub data TcpHandling : Type 0 where
  invalid_checksum null_socket : TcpHandling
  processed_by : (id : ℕ) → Outcome → TcpHandling

-- From tcp_sock_lookup on; `iss` is the random number that tcp_process may draw.
unfoldable pub to_socket : (iss : ℕ) → Stack → Cb → TcpHandling
to_socket iss stack cb = elim (tcp_sock_lookup stack.tcp_sock_table cb) [
  | none ↦ null_socket
  | some e ↦ processed_by e.id (tcp_process iss (stack.socks e.id) cb)
]

unfoldable pub handle_tcp_packet : (iss : ℕ) → Stack → RawPacket → TcpHandling
handle_tcp_packet iss stack p = elim (receive_packet p) [
  | none ↦ invalid_checksum
  | some cb ↦ to_socket iss stack cb
]

-- What is done with a packet; `echo_request` is answered by icmp_send_packet.
pub data IpHandling : Type 0 where
  echo_request other_icmp unsupported_protocol incorrect_destination : IpHandling
  tcp_packet : TcpHandling → IpHandling

unfoldable pub handle_ip_packet : (iss iface_ip : ℕ) → Stack → RawPacket → IpHandling
handle_ip_packet iss iface_ip stack p =
    if net32 p.ip 16 == iface_ip
    then (if get_or p.ip 9 0 == 1
        then (if get_or p.tcp 0 0 == 8 then echo_request else other_icmp)
        else if get_or p.ip 9 0 == 6
        then tcp_packet (handle_tcp_packet iss stack p)
        else unsupported_protocol)
    else incorrect_destination
