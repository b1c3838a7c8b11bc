-- ===== src/Router.antt =====
-- The router of Lab10/12-nat with its parts put together: handle_packet of main.c, handle_ip_packet
-- of ip.c, and the calls that do_translation and nat_translate_packet of nat.c end with. A packet is
-- the bytes behind its Ethernet header.
pub mod Answers
use ucas_computer_network_la.Prelude.{
  ℕ, Bool, ◌&&◌, List, [], ◌++◌, Option, none, some, ◌==◌, if◌then◌else◌, get_or,
}
use ucas_computer_network_la.Checksum.{net16}
use ucas_computer_network_la.Route.{RtEntry, Fate, sent_by_arp, ip_send_packet}
use ucas_computer_network_la.Wire.{RawPacket, net32}
use ucas_computer_network_la.Nat.{
  NatTable, Direction, Verdict, unreachable, dropped, crashed, sent, get_packet_direction,
  nat_translate_packet,
}
use ucas_computer_network_la.Nat.Bytes.{read_packet, rewrite}
use ucas_computer_network_la.Arp.{ArpCache}
use ucas_computer_network_la.Arp.Messages.{
  Iface, EtherArp, Frame, Handling, iface_send_packet_by_arp, handle_arp_packet,
}
use ucas_computer_network_la.Icmp.{InPacket, Sending, icmp_send_packet}

-- What does not change while packets are handled: the routes and the interfaces by their indices,
-- with the addresses of the interfaces.
pub record RouterConfig : Type 0 where
  pub rtable : List RtEntry
  pub ifaces : ℕ → Iface
  pub ips : List ℕ

pub record State : Type 0 where
  pub nat : NatTable
  pub arpcache : ArpCache

-- What a packet leads to besides the state: a null dereference, nothing, an ICMP message, frames, or
-- what the handling of an ARP message gives.
pub data Output : Type 0 where
  null_route nothing unknown_type : Output
  icmp_message : Sending → Output
  frames : List Frame → Output
  arp_message : Handling → Output

-- ip_send_packet of ip_base.c, with the frame that the ARP layer sends or the question it asks.
unfoldable pub send_ip : RouterConfig → (now : ℕ) → RawPacket → State → Output × State
send_ip conf now p st = elim (ip_send_packet conf.rtable (net32 p.ip 16) (get_or p.ip 8 0)) [
  | sent_by_arp iface next_hop ttl ↦
      let (cache, out) =
        iface_send_packet_by_arp now (conf.ifaces iface) next_hop (p.ip ++ p.tcp) st.arpcache in
      (frames out, record st { arpcache = cache })
  | _ ↦ (nothing, st)
]

-- The fields that icmp_send_packet reads.
unfoldable pub in_packet : RawPacket → InPacket
in_packet p = record {
  saddr = net32 p.ip 12;
  daddr = net32 p.ip 16;
  tot_len = net16 p.ip 2;
  header = p.ip;
  payload = p.tcp;
}

-- The end of a translation in a direction; ICMP_DEST_UNREACH is 3 and ICMP_HOST_UNREACH 1.
unfoldable pub finish :
    RouterConfig → (now : ℕ) → Direction → RawPacket → Verdict × NatTable → State → Output × State
finish conf now dir p (sent q, nat) st =
    send_ip conf now (rewrite dir q p) (record st { nat = nat })
finish conf now dir p (unreachable, nat) st = (
  icmp_message (icmp_send_packet conf.rtable conf.ips (in_packet p) 3 1),
  record st { nat = nat },
)
finish conf now dir p (dropped, nat) st = (nothing, record st { nat = nat })
finish conf now dir p (crashed, nat) st = (null_route, record st { nat = nat })

unfoldable pub translate : RouterConfig → (now : ℕ) → RawPacket → State → Output × State
translate conf now p st = elim (get_packet_direction conf.rtable st.nat (read_packet p)) [
  | none ↦ (null_route, st)
  | some dir ↦
      finish conf now dir p
        (nat_translate_packet conf.rtable now (get_or p.ip 9 0) (read_packet p) st.nat) st
]

-- ICMP_ECHOREQUEST is 8, and ICMP_ECHOREPLY 0.
unfoldable pub handle_ip : RouterConfig → (now : ℕ) → Iface → RawPacket → State → Output × State
handle_ip conf now iface p st =
    if net32 p.ip 16 == iface.ip && get_or p.ip 9 0 == 1
    then (if get_or p.tcp 0 0 == 8
        then (icmp_message (icmp_send_packet conf.rtable conf.ips (in_packet p) 0 0), st)
        else (nothing, st))
    else translate conf now p st

-- What an Ethernet frame carries, by its type.
pub data Content : Type 0 where
  ip_content : RawPacket → Content
  arp_content : EtherArp → Content
  other_content : Content

-- The cache after an ARP message, where no write leaves the entries.
cache_of : ArpCache → Handling → ArpCache
cache_of c Handling.overrun = c
cache_of c (Handling.handled c' out flushed) = c'

unfoldable pub handle_frame :
    RouterConfig → (now random : ℕ) → Iface → Content → State → Output × State
unfolding cache_of
handle_frame conf now random iface (ip_content p) st = handle_ip conf now iface p st
handle_frame conf now random iface (arp_content arp) st =
    let result = handle_arp_packet now random iface arp st.arpcache in
    (arp_message result, record st { arpcache = cache_of st.arpcache result })
handle_frame conf now random iface other_content st = (unknown_type, st)
