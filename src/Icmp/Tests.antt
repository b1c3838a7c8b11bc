-- ===== src/Icmp/Tests.antt =====
-- The theorem on messages at an echo request and at a packet without a route back.
use ucas_computer_network_la.Prelude.{refl, [], ◌∷◌, arith}
use ucas_computer_network_la.Icmp.{InPacket, icmp_send_packet}
use ucas_computer_network_la.Icmp.Quotes.{Quotes, icmp_send_packet-Quotes}

-- A request with the identifier 1, 2, the number 3, 4 and one byte of data; the header is shortened.
abbrev ping : InPacket
ping = record {
  saddr = 167772161;
  daddr = 167772162;
  tot_len = 11;
  header = 69 ∷ 0 ∷ [];
  payload = 8 ∷ 0 ∷ 77 ∷ 77 ∷ 1 ∷ 2 ∷ 3 ∷ 4 ∷ 99 ∷ [];
}

icmp_send_packet-Quotes_example : Quotes [] [] ping 0 0 (icmp_send_packet [] [] ping 0 0)
icmp_send_packet-Quotes_example = icmp_send_packet-Quotes [] [] ping 0 0 (refl, omega arith)
