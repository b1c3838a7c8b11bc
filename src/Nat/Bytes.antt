-- ===== src/Nat/Bytes.antt =====
-- What do_translation of Lab10/12-nat/nat.c writes into the bytes of a packet, whose headers are those
-- of Wire.antt: the translated address and port, and then both checksums.
pub mod Rewritten
use ucas_computer_network_la.Prelude.{ℕ, ◌+◌, List, Option, none, some, ◌==◌, set, get_or}
use ucas_computer_network_la.Checksum.{store16, net16, ip_checksum, tcp_checksum}
use ucas_computer_network_la.Route.{RtEntry}
use ucas_computer_network_la.Wire.{RawPacket, net32, byte0, byte1, byte2, byte3}
use ucas_computer_network_la.Nat.{
  Packet, NatTable, Direction, dir_in, dir_out, dir_invalid, Verdict, unreachable, dropped, crashed,
  sent, get_packet_direction, nat_translate_packet,
}

-- A number in network order at byte `i`.
unfoldable pub put16 : (v i : ℕ) → List ℕ → List ℕ
put16 v i buf = set (set buf i (byte1 v)) (i + 1) (byte0 v)

unfoldable pub put32 : (v i : ℕ) → List ℕ → List ℕ
put32 v i buf =
    set (set (set (set buf i (byte3 v)) (i + 1) (byte2 v)) (i + 2) (byte1 v)) (i + 3) (byte0 v)

-- The fields that the translation reads.
unfoldable pub read_packet : RawPacket → Packet
read_packet p = record {
  saddr = net32 p.ip 12;
  daddr = net32 p.ip 16;
  sport = net16 p.tcp 0;
  dport = net16 p.tcp 2;
  seq = net32 p.tcp 4;
  ack = net32 p.tcp 8;
  flags = get_or p.tcp 13 0;
}

unfoldable pub set_checksums : RawPacket → RawPacket
set_checksums p = record {
  ip = store16 5 (ip_checksum p.ip).0 p.ip;
  tcp = store16 8 (tcp_checksum p.ip p.tcp).0 p.tcp;
}

unfoldable pub rewrite : Direction → Packet → RawPacket → RawPacket
rewrite dir_in q p =
    set_checksums (record { ip = put32 q.daddr 16 p.ip; tcp = put16 q.dport 2 p.tcp })
rewrite dir_out q p =
    set_checksums (record { ip = put32 q.saddr 12 p.ip; tcp = put16 q.sport 0 p.tcp })
rewrite dir_invalid q p = set_checksums p
