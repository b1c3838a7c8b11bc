-- ===== src/Wire/Roundtrip.antt =====
-- A segment survives its way over the wire: tcp_out.c and tcp.c of Lab15/16-tcp_stack.
use ucas_computer_network_la.Prelude.{
  ℕ, ◌+◌, ◌-◌, ◌*◌, ◌%◌, ◌^◌, ◌≤◌, ◌<◌, ◌≡◌, refl, ap, sym, ◌∙◌, List, [], ◌∷◌, ◌++◌, some, arith,
  length, take, drop, get_or,
}
use ucas_computer_network_la.Checksum.{
  load16, store16, net16, ip_hdr_size, tcp_checksum, sum_without, checksum, tcp_length, pseudo_sum,
}
use ucas_computer_network_la.Checksum.Store.{load16-store16}
use ucas_computer_network_la.Checksum.Verify.{sum_without-stored, checksum-bound}
use ucas_computer_network_la.Tcp.{Segment, tcp_cb_init}
use ucas_computer_network_la.Wire.{
  byte0, byte1, byte2, byte3, net32, ip_fields, ip_init_hdr, tcp_init_hdr, make_packet,
  tcp_hdr_size, read_cb, receive_packet,
}

-- The fields are within the types of the source, and the packet within what an IP header can say.
pub record InRange (s : Segment) : Type 0 where
  pub saddr_in : s.saddr < 4294967296
  pub daddr_in : s.daddr < 4294967296
  pub sport_in : s.sport < 65536
  pub dport_in : s.dport < 65536
  pub seq_in : s.seq < 4294967296
  pub ack_in : s.ack < 4294967296
  pub flags_in : s.flags < 256
  pub rwnd_in : s.rwnd < 65536
  pub payload_in : length s.payload < 65496

take-all : (xs : List ℕ) → take (length xs) xs ≡ xs
take-all [] = refl
take-all (x ∷ xs) = ap (λ r. x ∷ r) (take-all xs)

pub bytes16 : (v : ℕ) → v < 65536 → byte1 v * 256 + byte0 v ≡ v
bytes16 v h = omega arith

pub bytes32 :
    (v : ℕ) → v < 4294967296 → (byte3 v * 256 + byte2 v) * 65536 + (byte1 v * 256 + byte0 v) ≡ v
bytes32 v h = omega arith

-- What the receiver reads from the IP header.
ip_init_hdr-fields :
    (id old saddr daddr len : ℕ)
    → saddr < 4294967296
    → daddr < 4294967296
    → len < 65536
    → (net32 (ip_init_hdr id old saddr daddr len 6) 12 ≡ saddr)
      × (net32 (ip_init_hdr id old saddr daddr len 6) 16 ≡ daddr)
      × (net16 (ip_init_hdr id old saddr daddr len 6) 2 ≡ len)
      × (ip_hdr_size (ip_init_hdr id old saddr daddr len 6) ≡ 20)
unfolding ip_init_hdr ip_fields net32 net16 store16 ip_hdr_size
ip_init_hdr-fields id old saddr daddr len s d l =
    (bytes32 saddr s, bytes32 daddr d, bytes16 len l, omega arith)

-- And from the TCP header, whose checksum is stored.
tcp_init_hdr-fields :
    (c : ℕ) (s : Segment)
    → InRange s
    → (let tcp =
          store16 8 c (tcp_init_hdr s.sport s.dport s.seq s.ack s.flags s.rwnd ++ s.payload) in
        (net16 tcp 0 ≡ s.sport)
        × (net16 tcp 2 ≡ s.dport)
        × (net32 tcp 4 ≡ s.seq)
        × (net32 tcp 8 ≡ s.ack)
        × (get_or tcp 13 0 ≡ s.flags)
        × (net16 tcp 14 ≡ s.rwnd)
        × (tcp_hdr_size tcp ≡ 20)
        × (drop 20 tcp ≡ s.payload))
unfolding tcp_init_hdr net32 net16 store16 tcp_hdr_size
tcp_init_hdr-fields c s r = (
  bytes16 s.sport r.sport_in,
  bytes16 s.dport r.dport_in,
  bytes32 s.seq r.seq_in,
  bytes32 s.ack r.ack_in,
  omega (arith, r.flags_in),
  bytes16 s.rwnd r.rwnd_in,
  omega arith,
  refl,
)

-- The receiver reads the segment's fields.
read_cb_lem :
    (ip tcp : List ℕ) (s : Segment)
    → InRange s
    → (net32 ip 12 ≡ s.saddr)
    → (net32 ip 16 ≡ s.daddr)
    → (net16 ip 2 ≡ 40 + length s.payload)
    → (ip_hdr_size ip ≡ 20)
    → (net16 tcp 0 ≡ s.sport)
    → (net16 tcp 2 ≡ s.dport)
    → (net32 tcp 4 ≡ s.seq)
    → (net32 tcp 8 ≡ s.ack)
    → (get_or tcp 13 0 ≡ s.flags)
    → (net16 tcp 14 ≡ s.rwnd)
    → (tcp_hdr_size tcp ≡ 20)
    → (drop 20 tcp ≡ s.payload)
    → read_cb (record { ip = ip; tcp = tcp }) ≡ tcp_cb_init s
unfolding read_cb tcp_cb_init
read_cb_lem ip tcp s r a b c d e f g h i j k l =
    let n = length s.payload in
    let len : (40 + n + 2 ^ 32 - 20 - 20) % 2 ^ 32 ≡ n = omega (arith, r.payload_in) in
    rw (a, b, c, d)
      (rw (e, f, g) (rw (h, i, j) (rw (k, l) (rw len (rw (take-all s.payload) refl)))))

-- The checksum test of a packet whose checksum was stored.
tcp_checksum-stored :
    (ip tcp : List ℕ)
    → 18 ≤ length tcp
    → (tcp_checksum ip (store16 8 (tcp_checksum ip tcp).0 tcp)).0
      ≡ load16 (store16 8 (tcp_checksum ip tcp).0 tcp) 8
unfolding tcp_checksum sum_without
tcp_checksum-stored ip tcp h =
    let n = tcp_length ip in
    let c = checksum (store16 8 0 tcp) n (pseudo_sum ip) in
    let b = checksum-bound (store16 8 0 tcp) n (pseudo_sum ip) in
    ap (λ r. r.0) (sum_without-stored 8 n (pseudo_sum ip) c tcp b h)
    ∙ sym (load16-store16 8 c tcp b h)

receive_packet-accepts :
    (ip tcp : List ℕ)
    → (tcp_checksum ip tcp).0 ≡ load16 tcp 8
    → receive_packet (record { ip = ip; tcp = tcp })
      ≡ some (read_cb (record { ip = ip; tcp = tcp }))
unfolding receive_packet
receive_packet-accepts ip tcp e = ground (arith, e)

length-tcp_init_hdr :
    (s : Segment)
    → 18 ≤ length (tcp_init_hdr s.sport s.dport s.seq s.ack s.flags s.rwnd ++ s.payload)
unfolding tcp_init_hdr
length-tcp_init_hdr s = omega arith

-- A segment whose fields are in range comes out of the packet as it went in: the receiver accepts the checksum
-- and reads the fields and the data, whatever the identifier and the old memory are.
pub receive_packet-make_packet :
    (id old : ℕ) (s : Segment)
    → InRange s
    → receive_packet (make_packet id old s) ≡ some (tcp_cb_init s)
unfolding make_packet
receive_packet-make_packet id old s r =
    let ip = ip_init_hdr id old s.saddr s.daddr (40 + length s.payload) 6 in
    let tcp = tcp_init_hdr s.sport s.dport s.seq s.ack s.flags s.rwnd ++ s.payload in
    let c = (tcp_checksum ip tcp).0 in
    let f =
      ip_init_hdr-fields id old s.saddr s.daddr (40 + length s.payload) r.saddr_in r.daddr_in
        (omega (arith, r.payload_in)) in
    let t = tcp_init_hdr-fields c s r in
    receive_packet-accepts ip (store16 8 c tcp) (tcp_checksum-stored ip tcp (length-tcp_init_hdr s))
    ∙ ap some (read_cb_lem ip (store16 8 c tcp) s r f.0 f.1 f.2 f.3 t.0 t.1 t.2 t.3 t.4 t.5 t.6 t.7)

-- The fields that ip.c reads.
pub make_packet-daddr :
    (id old : ℕ) (s : Segment) → InRange s → net32 (make_packet id old s).ip 16 ≡ s.daddr
unfolding make_packet
make_packet-daddr id old s r =
    (ip_init_hdr-fields id old s.saddr s.daddr (40 + length s.payload) r.saddr_in r.daddr_in
      (omega (arith, r.payload_in))).1

pub make_packet-protocol : (id old : ℕ) (s : Segment) → get_or (make_packet id old s).ip 9 0 ≡ 6
unfolding make_packet ip_init_hdr ip_fields store16
make_packet-protocol id old s = refl
