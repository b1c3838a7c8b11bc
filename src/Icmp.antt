-- ===== src/Icmp.antt =====
-- The ICMP messages of Lab10/12-nat/icmp.c. The checksum is left out; a C array is a list of bytes.
pub mod Quotes
mod Tests
use ucas_computer_network_la.Prelude.{
  ℕ, ◌+◌, ◌-◌, Bool, true, false, ◌||◌, List, [], ◌∷◌, ◌++◌, Option, none, some, ltb, ◌==◌,
  if◌then◌else◌, get_or, take, drop, length,
}
use ucas_computer_network_la.Route.{RtEntry, longest_prefix_match}

abbrev pub icmp_echoreply : ℕ
icmp_echoreply = 0

abbrev pub icmp_hdr_size : ℕ
icmp_hdr_size = 8

abbrev pub icmp_copied_data_len : ℕ
icmp_copied_data_len = 8

abbrev pub ip_base_hdr_size : ℕ
ip_base_hdr_size = 20

-- The packet that gives cause for a message: fields of its IP header, the bytes of this header, and
-- the bytes that were received behind it.
pub record InPacket : Type 0 where
  pub saddr : ℕ
  pub daddr : ℕ
  pub tot_len : ℕ
  pub header : List ℕ
  pub payload : List ℕ

-- A message; the identifier and the sequence number are two bytes each.
pub record Message : Type 0 where
  pub icmp_type : ℕ
  pub icmp_code : ℕ
  pub icmp_identifier : List ℕ
  pub icmp_sequence : List ℕ
  pub body : List ℕ

-- What is given to ip_send_packet, with the length in the IP header; or a copy leaves its array.
pub data Sending : Type 0 where
  overrun no_route : Sending
  sends : (saddr daddr out_ip_len : ℕ) → Message → Sending

-- An answer to an echo request; `icmp_len` is that of the request.
pub echo_reply : InPacket → (code icmp_len : ℕ) → Sending
echo_reply p code icmp_len = sends p.daddr p.saddr (ip_base_hdr_size + icmp_len) (record {
  icmp_type = icmp_echoreply;
  icmp_code = code;
  icmp_identifier = take 2 (drop 4 p.payload);
  icmp_sequence = take 2 (drop 6 p.payload);
  body = take (icmp_len - icmp_hdr_size) (drop 8 p.payload);
})

-- A report on the packet.
pub report : List RtEntry → (ips : List ℕ) → InPacket → (icmp_type code : ℕ) → Sending
report rtable ips p icmp_type code =
    let icmp_len = icmp_hdr_size + length p.header + icmp_copied_data_len in
    elim (longest_prefix_match p.saddr rtable) [
      | none ↦ no_route
      | some entry ↦
          sends (get_or ips entry.iface 0) p.saddr (ip_base_hdr_size + icmp_len) (record {
            icmp_type = icmp_type;
            icmp_code = code;
            icmp_identifier = 0 ∷ 0 ∷ [];
            icmp_sequence = 0 ∷ 0 ∷ [];
            body = take (icmp_len - icmp_hdr_size) (p.header ++ p.payload);
          })
    ]

-- `ips` are the addresses of the interfaces.
pub icmp_send_packet : List RtEntry → (ips : List ℕ) → InPacket → (icmp_type code : ℕ) → Sending
icmp_send_packet rtable ips p icmp_type code =
    let size = length p.header in
    if icmp_type == icmp_echoreply
    then (if ltb (size + length p.payload) p.tot_len || ltb p.tot_len (size + icmp_hdr_size)
        then overrun
        else echo_reply p code (p.tot_len - size))
    else (if ltb (length p.payload) icmp_copied_data_len
        then overrun
        else report rtable ips p icmp_type code)
