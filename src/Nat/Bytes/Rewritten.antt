-- ===== src/Nat/Bytes/Rewritten.antt =====
-- A translated packet is the packet of the translated segment: nat.c of Lab10/12-nat.
use ucas_computer_network_la.Prelude.{ℕ, ◌≡◌, refl, List, some}
use ucas_computer_network_la.Checksum.{
  load16, store16, net16, ip_checksum, tcp_checksum, sum_without, ip_hdr_size, tcp_length,
  pseudo_sum, load32,
}
use ucas_computer_network_la.Tcp.{Segment}
use ucas_computer_network_la.Wire.{make_packet, ip_init_hdr, ip_fields, tcp_init_hdr}
use ucas_computer_network_la.Nat.{
  Packet, Direction, NatTable, dir_in, dir_out, dir_invalid, get_packet_direction,
  nat_translate_packet, do_translation, sent, sent_or_dropped, translate_in, translate_out,
}
use ucas_computer_network_la.Route.{RtEntry}
use ucas_computer_network_la.Nat.Bytes.{put16, put32, set_checksums, rewrite}

-- The segment with the address and the port that a translation in the direction changes.
abbrev pub translated : Direction → Packet → Segment → Segment
translated dir_in q s = record s { daddr = q.daddr; dport = q.dport }
translated dir_out q s = record s { saddr = q.saddr; sport = q.sport }
translated dir_invalid q s = s

pub rewrite-make_packet :
    (dir : Direction) (q : Packet) (id old : ℕ) (s : Segment)
    → rewrite dir q (make_packet id old s) ≡ make_packet id old (translated dir q s)
unfolding rewrite set_checksums make_packet ip_init_hdr ip_fields tcp_init_hdr put16 put32 store16
    ip_checksum tcp_checksum sum_without ip_hdr_size tcp_length pseudo_sum load32 load16 net16
rewrite-make_packet dir_in q id old s = refl
rewrite-make_packet dir_out q id old s = refl
rewrite-make_packet dir_invalid q id old s = refl

-- A TCP packet in each of the two directions.
pub nat_translate_packet-out :
    (rtable : List RtEntry) (now : ℕ) (p : Packet) (nat : NatTable)
    → get_packet_direction rtable nat p ≡ some dir_out
    → nat_translate_packet rtable now 6 p nat
      ≡ (sent (translate_out now p nat).0, (translate_out now p nat).1)
unfolding nat_translate_packet do_translation
nat_translate_packet-out rtable now p nat d = rw (d, nat_translate_packet) refl

pub nat_translate_packet-in :
    (rtable : List RtEntry) (now : ℕ) (p q : Packet) (nat : NatTable)
    → get_packet_direction rtable nat p ≡ some dir_in
    → (translate_in now p nat).0 ≡ some q
    → nat_translate_packet rtable now 6 p nat ≡ (sent q, (translate_in now p nat).1)
unfolding nat_translate_packet do_translation sent_or_dropped
nat_translate_packet-in rtable now p q nat d e =
    rw (d, nat_translate_packet) (rw (e, sent_or_dropped) refl)
