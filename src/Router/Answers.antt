-- ===== src/Router/Answers.antt =====
-- A connection from inside through the router of Lab10/12-nat, in bytes: main.c, ip.c and nat.c.
use ucas_computer_network_la.Prelude.{
  ℕ, ◌≡◌, ◌≢◌, ◌<◌, refl, ap, ap₂, ◌∙◌, [], some, arith, get_or, length,
}
use ucas_computer_network_la.Checksum.{net16, store16}
use ucas_computer_network_la.Tcp.{Segment}
use ucas_computer_network_la.Wire.{net32, byte0, make_packet, ip_init_hdr, ip_fields, tcp_init_hdr}
use ucas_computer_network_la.Wire.Roundtrip.{InRange, bytes16, bytes32, make_packet-protocol}
use ucas_computer_network_la.Nat.{
  Packet, dir_in, dir_out, get_packet_direction, translate_out, translate_in, alloc_port, bucket_of,
}
use ucas_computer_network_la.Nat.Bytes.{read_packet}
use ucas_computer_network_la.Nat.Bytes.Rewritten.{
  translated, rewrite-make_packet, nat_translate_packet-out, nat_translate_packet-in,
}
use ucas_computer_network_la.Nat.Reply.{PortsAssigned, PortsDiffer, reply}
use ucas_computer_network_la.Nat.Answers.{numbered, translate_in-answers}
use ucas_computer_network_la.Arp.Messages.{Iface}
use ucas_computer_network_la.Router.{RouterConfig, State, send_ip, finish, translate, handle_ip}

-- What the translation reads of a segment.
abbrev pub packet_of : Segment → Packet
packet_of s = record {
  saddr = s.saddr;
  daddr = s.daddr;
  sport = s.sport;
  dport = s.dport;
  seq = s.seq;
  ack = s.ack;
  flags = s.flags;
}

read_packet-make_packet :
    (id old : ℕ) (s : Segment) → InRange s → read_packet (make_packet id old s) ≡ packet_of s
unfolding read_packet make_packet ip_init_hdr ip_fields tcp_init_hdr store16 net32 net16
read_packet-make_packet id old s r =
    rw (bytes32 s.saddr r.saddr_in, bytes32 s.daddr r.daddr_in, bytes16 s.sport r.sport_in)
      (rw (bytes16 s.dport r.dport_in, bytes32 s.seq r.seq_in, bytes32 s.ack r.ack_in)
        (ap (λ f. record (packet_of s) { flags = f }) {x = byte0 s.flags}
          (omega (arith, r.flags_in))))

handle_ip-translates :
    (conf : RouterConfig) (now id old : ℕ) (iface : Iface) (s : Segment) (st : State)
    → handle_ip conf now iface (make_packet id old s) st
      ≡ translate conf now (make_packet id old s) st
unfolding handle_ip
handle_ip-translates conf now id old iface s st = rw (make_packet-protocol id old s) (ground arith)

-- What leaves the router towards the far end, and what comes back.
handle_ip-out :
    (conf : RouterConfig) (now id old : ℕ) (iface : Iface) (s : Segment) (st : State)
    → InRange s
    → get_packet_direction conf.rtable st.nat (packet_of s) ≡ some dir_out
    → handle_ip conf now iface (make_packet id old s) st
      ≡ send_ip conf now
          (make_packet id old (translated dir_out (translate_out now (packet_of s) st.nat).0 s))
          (record st { nat = (translate_out now (packet_of s) st.nat).1 })
unfolding translate finish
handle_ip-out conf now id old iface s st r d =
    let e = nat_translate_packet-out conf.rtable now (packet_of s) st.nat d in
    let q = (translate_out now (packet_of s) st.nat).0 in
    handle_ip-translates conf now id old iface s st
    ∙ rw (read_packet-make_packet id old s r, d, make_packet-protocol id old s, translate)
        (rw (read_packet-make_packet id old s r, e, finish)
          (rw (rewrite-make_packet dir_out q id old s) refl))

handle_ip-in :
    (conf : RouterConfig) (now id old : ℕ) (iface : Iface) (s : Segment) (q : Packet) (st : State)
    → InRange s
    → get_packet_direction conf.rtable st.nat (packet_of s) ≡ some dir_in
    → (translate_in now (packet_of s) st.nat).0 ≡ some q
    → handle_ip conf now iface (make_packet id old s) st
      ≡ send_ip conf now
          (make_packet id old (translated dir_in q s))
          (record st { nat = (translate_in now (packet_of s) st.nat).1 })
unfolding translate finish
handle_ip-in conf now id old iface s q st r d t =
    let e = nat_translate_packet-in conf.rtable now (packet_of s) q st.nat d t in
    handle_ip-translates conf now id old iface s st
    ∙ rw (read_packet-make_packet id old s r, d, make_packet-protocol id old s, translate)
        (rw (read_packet-make_packet id old s r, e, finish)
          (rw (rewrite-make_packet dir_in q id old s) refl))

-- A segment from inside, and whatever segment its destination sends to the source that it was given,
-- with its own numbers, flags and data: the first leaves with the translated source, and the second
-- is sent on, once it comes, to the address and port that the first was sent from. Both are the bytes
-- of such a segment, with the right checksums. The routes tell that the first comes from inside and
-- the second from outside; the fields of both are in range, the list of the flow is in order, a port
-- is free, and the table has not changed in between.
pub handle_ip-answers :
    (conf : RouterConfig) (now later id old id' old' : ℕ) (iface iface' : Iface) (s r : Segment)
    (st st' : State)
    → InRange s
    → InRange r
    → get_packet_direction conf.rtable st.nat (packet_of s) ≡ some dir_out
    → get_packet_direction conf.rtable st'.nat (packet_of r) ≡ some dir_in
    → bucket_of s.daddr s.dport < length st.nat.nat_mapping_list
    → PortsAssigned st.nat (get_or st.nat.nat_mapping_list (bucket_of s.daddr s.dport) [])
    → PortsDiffer (get_or st.nat.nat_mapping_list (bucket_of s.daddr s.dport) [])
    → (alloc_port st.nat).0 ≢ 0
    → st'.nat ≡ (translate_out now (packet_of s) st.nat).1
    → packet_of r ≡ numbered r.seq r.ack r.flags (reply (translate_out now (packet_of s) st.nat).0)
    → (handle_ip conf now iface (make_packet id old s) st
        ≡ send_ip conf now
            (make_packet id old (translated dir_out (translate_out now (packet_of s) st.nat).0 s))
            (record st { nat = (translate_out now (packet_of s) st.nat).1 }))
      × (handle_ip conf later iface' (make_packet id' old' r) st'
          ≡ send_ip conf later
              (make_packet id' old' (record r { daddr = s.saddr; dport = s.sport }))
              (record st' { nat = (translate_in later (packet_of r) st'.nat).1 }))
handle_ip-answers conf now later id old id' old' iface iface' s r st st' a b c d e f g h same
      answer =
    let q = numbered r.seq r.ack r.flags (reply (packet_of s)) in
    let back = translate_in-answers now later r.seq r.ack r.flags (packet_of s) st.nat e f g h in
    let let_in : (translate_in later (packet_of r) st'.nat).0 ≡ some q =
      ap₂ (λ x t. (translate_in later x t).0) answer same ∙ back in
    (
      handle_ip-out conf now id old iface s st a c,
      handle_ip-in conf later id' old' iface' r q st' b d let_in,
    )
