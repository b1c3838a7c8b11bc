-- ===== src/Nat.antt =====
-- The address translation of Lab10/12-nat/nat.c. The hash table is a list of its 256 lists; the array
-- of assigned ports is a function. Of a packet the addresses, ports, numbers and flags are kept, and
-- its bytes are in Nat/Bytes.antt; the clock is an argument. The lock makes each operation one step.
pub mod Upkeep
pub mod Ports
pub mod Counts
pub mod Exact
pub mod Runs
pub mod Reply
pub mod Answers
pub mod Expiry
pub mod Bytes
mod Tests
use ucas_computer_network_la.Prelude.{
  ℕ, zero, suc, ◌+◌, ◌-◌, ◌*◌, ◌%◌, ◌^◌, Bool, true, false, not, ◌&&◌, ◌||◌, List, [], ◌∷◌, ◌++◌,
  Option, none, some, ltb, leb, ◌==◌, if◌then◌else◌, get_or, set, replicate,
}
use ucas_computer_network_la.Hash.{hash8, bytes_u32, bytes_u16}
use ucas_computer_network_la.Route.{RtEntry, longest_prefix_match}

abbrev pub nat_port_min : ℕ
nat_port_min = 12345

abbrev pub nat_port_max : ℕ
nat_port_max = 23456

abbrev pub tcp_established_timeout : ℕ
tcp_established_timeout = 60

abbrev pub tcp_fin : ℕ
tcp_fin = 1

abbrev pub tcp_ack : ℕ
tcp_ack = 16

-- `struct nat_connection`.
pub record Conn : Type 0 where
  pub internal_fin : ℕ
  pub external_fin : ℕ
  pub internal_seq_end : ℕ
  pub external_seq_end : ℕ
  pub internal_ack : ℕ
  pub external_ack : ℕ

-- `struct nat_mapping`.
pub record Mapping : Type 0 where
  pub remote_ip : ℕ
  pub remote_port : ℕ
  pub internal_ip : ℕ
  pub internal_port : ℕ
  pub external_ip : ℕ
  pub external_port : ℕ
  pub update_time : ℕ
  pub conn : Conn

-- `struct dnat_rule`.
pub record DnatRule : Type 0 where
  pub external_ip : ℕ
  pub external_port : ℕ
  pub internal_ip : ℕ
  pub internal_port : ℕ

-- `struct nat_table`; of the interfaces the indices, and the address of the external one.
pub record NatTable : Type 0 where
  pub nat_mapping_list : List (List Mapping)
  pub internal_index : ℕ
  pub external_index : ℕ
  pub external_iface_ip : ℕ
  pub assigned_ports : ℕ → Bool
  pub rules : List DnatRule

pub record Packet : Type 0 where
  pub saddr : ℕ
  pub daddr : ℕ
  pub sport : ℕ
  pub dport : ℕ
  pub seq : ℕ
  pub ack : ℕ
  pub flags : ℕ

pub data Direction : Type 0 where
  dir_in dir_out dir_invalid : Direction

-- The direction by the route back to the source; none where there is no such route, which the code
-- dereferences all the same.
pub get_packet_direction : List RtEntry → NatTable → Packet → Option Direction
get_packet_direction rtable nat p = elim (longest_prefix_match p.saddr rtable) [
  | none ↦ none
  | some entry ↦ some (
      if entry.iface == nat.internal_index
      then dir_out
      else if entry.iface == nat.external_index
      then dir_in
      else dir_invalid)
]

-- The first port of `n` from `i` on that is free, or 0.
first_free : ℕ → ℕ → (ℕ → Bool) → ℕ
first_free zero i assigned = 0
first_free (suc n) i assigned =
    let rest = first_free n (suc i) assigned in if not (assigned i) then i else rest

pub with_port : ℕ → Bool → (ℕ → Bool) → ℕ → Bool
with_port p b assigned q = if q == p then b else assigned q

pub alloc_port : NatTable → ℕ × NatTable
alloc_port nat =
    let p = first_free (nat_port_max - nat_port_min) nat_port_min nat.assigned_ports in
    if p == 0
    then (0, nat)
    else (p, record nat { assigned_ports = with_port p true nat.assigned_ports })

pub bucket_of : ℕ → ℕ → ℕ
bucket_of rmt_ip rmt_port = hash8 (bytes_u32 rmt_ip ++ bytes_u16 rmt_port)

-- The searches of one list, and a change to the entry that they find.
pub find_mapping : (Mapping → Bool) → List Mapping → Option Mapping
find_mapping test [] = none
find_mapping test (m ∷ ms) = if test m then some m else find_mapping test ms

pub change_mapping : (Mapping → Bool) → (Mapping → Mapping) → List Mapping → List Mapping
change_mapping test change [] = []
change_mapping test change (m ∷ ms) =
    if test m then change m ∷ ms else m ∷ change_mapping test change ms

pub is_inbound : Packet → Mapping → Bool
is_inbound p m = m.external_ip == p.daddr && m.external_port == p.dport

pub is_outbound : Packet → Mapping → Bool
is_outbound p m = m.internal_ip == p.saddr && m.internal_port == p.sport

pub find_rule : Packet → List DnatRule → Option DnatRule
find_rule p [] = none
find_rule p (r ∷ rs) =
    if p.daddr == r.external_ip && p.dport == r.external_port then some r else find_rule p rs

pub new_conn : Conn
new_conn = record {
  internal_fin = 0;
  external_fin = 0;
  internal_seq_end = 0;
  external_seq_end = 0;
  internal_ack = 0;
  external_ack = 0;
}

-- The statistics of a packet from outside, and of one from inside.
pub count_inbound : Packet → Mapping → Mapping
count_inbound p m = record m {
  conn = record m.conn {
    external_fin = if p.flags == tcp_fin then tcp_fin else 0;
    external_seq_end = if ltb m.conn.external_seq_end p.seq then p.seq else m.conn.external_seq_end;
    external_ack =
        if ltb m.conn.external_ack p.ack && p.flags == tcp_ack then p.ack else m.conn.external_ack;
  };
}

pub count_outbound : Packet → Mapping → Mapping
count_outbound p m = record m {
  conn = record m.conn {
    internal_fin = if p.flags == tcp_fin then tcp_fin else m.conn.internal_fin;
    internal_seq_end = if ltb m.conn.internal_seq_end p.seq then p.seq else m.conn.internal_seq_end;
    internal_ack =
        if ltb m.conn.internal_ack p.ack && p.flags == tcp_ack then p.ack else m.conn.internal_ack;
  };
}

pub to_internal : Packet → Mapping → Packet
to_internal p m = record p { daddr = m.internal_ip; dport = m.internal_port }

pub to_external : Packet → Mapping → Packet
to_external p m = record p { saddr = m.external_ip; sport = m.external_port }

pub mapping_of_rule : ℕ → Packet → DnatRule → Mapping
mapping_of_rule now p r = record {
  remote_ip = p.saddr;
  remote_port = p.sport;
  internal_ip = r.internal_ip;
  internal_port = r.internal_port;
  external_ip = r.external_ip;
  external_port = r.external_port;
  update_time = now;
  conn = new_conn;
}

pub with_list : ℕ → List Mapping → NatTable → NatTable
with_list i ms nat = record nat { nat_mapping_list = set nat.nat_mapping_list i ms }

-- The branch DIR_IN of do_translation: the packet that is sent on, if any, and the table after it.
pub translate_in : ℕ → Packet → NatTable → Option Packet × NatTable
translate_in now p nat =
    let i = bucket_of p.saddr p.sport in
    let ms = get_or nat.nat_mapping_list i [] in
    elim (find_mapping (is_inbound p) ms) [
      | some m ↦ (
        some (to_internal p m),
        with_list i (change_mapping (is_inbound p) (count_inbound p) ms) nat,
      )
      | none ↦ elim (find_rule p nat.rules) [
        | none ↦ (none, nat)
        | some r ↦
            let m = mapping_of_rule now p r in
            (some (to_internal p m), with_list i (ms ++ count_inbound p m ∷ []) nat)
      ]
    ]

pub new_mapping : ℕ → Packet → ℕ → ℕ → Mapping
new_mapping now p ip port = record {
  remote_ip = p.daddr;
  remote_port = p.dport;
  internal_ip = p.saddr;
  internal_port = p.sport;
  external_ip = ip;
  external_port = port;
  update_time = now;
  conn = new_conn;
}

-- The branch DIR_OUT.
pub translate_out : ℕ → Packet → NatTable → Packet × NatTable
translate_out now p nat =
    let i = bucket_of p.daddr p.dport in
    let ms = get_or nat.nat_mapping_list i [] in
    elim (find_mapping (is_outbound p) ms) [
      | some m ↦
          (to_external p m, with_list i (change_mapping (is_outbound p) (count_outbound p) ms) nat)
      | none ↦
          let (port, nat') = alloc_port nat in
          let m = new_mapping now p nat.external_iface_ip port in
          (to_external p m, with_list i (ms ++ count_outbound p m ∷ []) nat')
    ]

-- What nat_translate_packet does with a packet; `crashed` stands for the null route.
pub data Verdict : Type 0 where
  unreachable dropped crashed : Verdict
  sent : Packet → Verdict

pub sent_or_dropped : Option Packet → Verdict
sent_or_dropped none = dropped
sent_or_dropped (some p) = sent p

pub do_translation : ℕ → Packet → Direction → NatTable → Verdict × NatTable
do_translation now p dir_in nat =
    let (out, nat') = translate_in now p nat in (sent_or_dropped out, nat')
do_translation now p dir_out nat = let (out, nat') = translate_out now p nat in (sent out, nat')
do_translation now p dir_invalid nat = (sent p, nat)

pub nat_translate_packet :
    List RtEntry → ℕ → (protocol : ℕ) → Packet → NatTable → Verdict × NatTable
nat_translate_packet rtable now protocol p nat = elim (get_packet_direction rtable nat p) [
  | none ↦ (crashed, nat)
  | some dir_invalid ↦ (unreachable, nat)
  | some dir ↦ if not (protocol == 6) then (dropped, nat) else do_translation now p dir nat
]
