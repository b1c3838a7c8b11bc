-- ===== src/Wire/Tests.antt =====
-- A packet of Lab15/16-tcp_stack on the wire.
use ucas_computer_network_la.Prelude.{◌≡◌, [], ◌∷◌, some, arith}
use ucas_computer_network_la.Tcp.{Segment, tcp_cb_init}
use ucas_computer_network_la.Wire.{make_packet, receive_packet}
use ucas_computer_network_la.Wire.Roundtrip.{InRange, receive_packet-make_packet}

-- The data "hello" from 10.0.0.1, port 12345, to 10.0.0.2, port 10001.
abbrev hello : Segment
hello = record {
  saddr = 167772161;
  daddr = 167772162;
  sport = 12345;
  dport = 10001;
  seq = 70000;
  ack = 900;
  flags = 24;
  rwnd = 65535;
  payload = 104 ∷ 101 ∷ 108 ∷ 108 ∷ 111 ∷ [];
}

hello-InRange : InRange hello
hello-InRange = omega arith

receive_packet-make_packet_example :
    receive_packet (make_packet 77 4660 hello) ≡ some (tcp_cb_init hello)
receive_packet-make_packet_example = receive_packet-make_packet 77 4660 hello hello-InRange
