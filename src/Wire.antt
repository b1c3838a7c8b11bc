-- ===== src/Wire.antt =====
-- The bytes of a TCP packet in Lab15/16-tcp_stack: ip_init_hdr of ip_base.c, the headers and the
-- packets of tcp_out.c, and tcp_cb_init and handle_tcp_packet of tcp.c. The part of a packet behind
-- its Ethernet header is a list of bytes for the IP header and one for the TCP header and its data.
pub mod Roundtrip
mod Tests
use ucas_computer_network_la.Prelude.{
  ℕ, ◌+◌, ◌-◌, ◌*◌, ◌/◌, ◌%◌, ◌^◌, Bool, List, [], ◌∷◌, ◌++◌, Option, none, some, ◌==◌,
  if◌then◌else◌, get_or, take, drop, length,
}
use ucas_computer_network_la.Checksum.{
  load16, store16, net16, ip_hdr_size, ip_checksum, tcp_checksum,
}
use ucas_computer_network_la.Tcp.{Segment, Cb, has_flag}

-- The bytes of a number, the lowest first.
abbrev pub byte0 : ℕ → ℕ
byte0 v = v % 256

abbrev pub byte1 : ℕ → ℕ
byte1 v = v / 256 % 256

abbrev pub byte2 : ℕ → ℕ
byte2 v = v / 65536 % 256

abbrev pub byte3 : ℕ → ℕ
byte3 v = v / 16777216 % 256

-- A u32 in network order.
unfoldable pub net32 : List ℕ → ℕ → ℕ
net32 buf i = net16 buf i * 65536 + net16 buf (i + 2)

-- The assignments of ip_init_hdr before its last one; `id` is the random number, and `old` what the
-- memory of the checksum held.
unfoldable pub ip_fields : (id old saddr daddr len proto : ℕ) → List ℕ
ip_fields id old saddr daddr len proto =
    69
    ∷ 0
    ∷ byte1 len
    ∷ byte0 len
    ∷ byte0 id
    ∷ byte1 id
    ∷ 64
    ∷ 0
    ∷ 64
    ∷ byte0 proto
    ∷ byte0 old
    ∷ byte1 old
    ∷ byte3 saddr
    ∷ byte2 saddr
    ∷ byte1 saddr
    ∷ byte0 saddr
    ∷ byte3 daddr
    ∷ byte2 daddr
    ∷ byte1 daddr
    ∷ byte0 daddr
    ∷ []

unfoldable pub ip_init_hdr : (id old saddr daddr len proto : ℕ) → List ℕ
ip_init_hdr id old saddr daddr len proto =
    let hdr = ip_fields id old saddr daddr len proto in store16 5 (ip_checksum hdr).0 hdr

-- The data offset is 5 words; the checksum and the urgent pointer stay 0.
unfoldable pub tcp_init_hdr : (sport dport seq ack flags rwnd : ℕ) → List ℕ
tcp_init_hdr sport dport seq ack flags rwnd =
    byte1 sport
    ∷ byte0 sport
    ∷ byte1 dport
    ∷ byte0 dport
    ∷ byte3 seq
    ∷ byte2 seq
    ∷ byte1 seq
    ∷ byte0 seq
    ∷ byte3 ack
    ∷ byte2 ack
    ∷ byte1 ack
    ∷ byte0 ack
    ∷ 80
    ∷ byte0 flags
    ∷ byte1 rwnd
    ∷ byte0 rwnd
    ∷ 0
    ∷ 0
    ∷ 0
    ∷ 0
    ∷ []

-- The bytes of a packet.
pub record RawPacket : Type 0 where
  pub ip : List ℕ
  pub tcp : List ℕ

-- The packet that tcp_send_packet, tcp_send_control_packet and tcp_send_reset make of a segment:
-- both headers, and then the checksum over the data that lies behind them.
unfoldable pub make_packet : (id old : ℕ) → Segment → RawPacket
make_packet id old s =
    let ip = ip_init_hdr id old s.saddr s.daddr (40 + length s.payload) 6 in
    let tcp = tcp_init_hdr s.sport s.dport s.seq s.ack s.flags s.rwnd ++ s.payload in
    record { ip = ip; tcp = store16 8 (tcp_checksum ip tcp).0 tcp }

unfoldable pub tcp_hdr_size : List ℕ → ℕ
tcp_hdr_size tcp = get_or tcp 12 0 / 16 * 4

-- tcp_cb_init on bytes; `len` wraps around where the headers say more than the packet has.
unfoldable pub read_cb : RawPacket → Cb
read_cb p =
    let len = (net16 p.ip 2 + 2 ^ 32 - ip_hdr_size p.ip - tcp_hdr_size p.tcp) % 2 ^ 32 in
    record {
      saddr = net32 p.ip 12;
      daddr = net32 p.ip 16;
      sport = net16 p.tcp 0;
      dport = net16 p.tcp 2;
      seq = net32 p.tcp 4;
      seq_end = (net32 p.tcp 4 + len + (if has_flag (get_or p.tcp 13 0) 3 then 1 else 0)) % 2 ^ 32;
      ack = net32 p.tcp 8;
      rwnd = net16 p.tcp 14;
      flags = get_or p.tcp 13 0;
      payload = take len (drop (tcp_hdr_size p.tcp) p.tcp);
      pl_len = len;
    }

-- handle_tcp_packet up to the search of the socket: none where the checksum is wrong.
unfoldable pub receive_packet : RawPacket → Option Cb
receive_packet p = if (tcp_checksum p.ip p.tcp).0 == load16 p.tcp 8 then some (read_cb p) else none
