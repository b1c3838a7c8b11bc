-- ===== src/Arp/Messages.antt =====
-- The messages of ARP, Lab10/12-nat/arp.c, which uses the cache of arpcache.c. A frame is its Ethernet
-- addresses and its content; the fields of an ARP message that are constant are left out.
use ucas_computer_network_la.Prelude.{ℕ, List, [], ◌∷◌, Option, none, some, ◌==◌, if◌then◌else◌}
use ucas_computer_network_la.Arp.{
  ArpCache, arpcache_lookup, arpcache_append_packet, arpcache_insert,
}

abbrev pub arpop_request : ℕ
arpop_request = 1

abbrev pub arpop_reply : ℕ
arpop_reply = 2

-- The fields of an interface that ARP reads.
pub record Iface : Type 0 where
  pub index : ℕ
  pub ip : ℕ
  pub mac : List ℕ

-- `struct ether_arp`.
pub record EtherArp : Type 0 where
  pub arp_op : ℕ
  pub arp_sha : List ℕ
  pub arp_spa : ℕ
  pub arp_tha : List ℕ
  pub arp_tpa : ℕ

pub data Frame : Type 0 where
  arp_frame : (dhost shost : List ℕ) → EtherArp → Frame
  ip_frame : (dhost shost packet : List ℕ) → Frame

abbrev pub bc_mac : List ℕ
bc_mac = 255 ∷ 255 ∷ 255 ∷ 255 ∷ 255 ∷ 255 ∷ []

-- `memset(arp, 0, ...)`.
abbrev pub zero_mac : List ℕ
zero_mac = 0 ∷ 0 ∷ 0 ∷ 0 ∷ 0 ∷ 0 ∷ []

unfoldable pub arp_send_request : Iface → ℕ → Frame
arp_send_request iface dst_ip = arp_frame bc_mac iface.mac (record {
  arp_op = arpop_request;
  arp_sha = iface.mac;
  arp_spa = iface.ip;
  arp_tha = zero_mac;
  arp_tpa = dst_ip;
})

unfoldable pub arp_send_reply : Iface → EtherArp → Frame
arp_send_reply iface req_hdr = arp_frame req_hdr.arp_sha iface.mac (record {
  arp_op = arpop_reply;
  arp_sha = iface.mac;
  arp_spa = iface.ip;
  arp_tha = req_hdr.arp_sha;
  arp_tpa = req_hdr.arp_spa;
})

-- What a call leaves: the cache, the frames sent, and the pending packets that go out, each with its
-- interface; or it writes outside the entries.
pub data Handling : Type 0 where
  overrun : Handling
  handled : ArpCache → List Frame → (flushed : List (ℕ × List ℕ)) → Handling

unfoldable pub inserted : List Frame → Option (ArpCache × List (ℕ × List ℕ)) → Handling
inserted frames none = overrun
inserted frames (some (c, flushed)) = handled c frames flushed

unfoldable pub handle_arp_packet : (now random : ℕ) → Iface → EtherArp → ArpCache → Handling
handle_arp_packet now random iface arp c =
    let insertion = arpcache_insert now random arp.arp_spa arp.arp_sha c in
    if iface.ip == arp.arp_tpa
    then (if arp.arp_op == arpop_request
        then inserted (arp_send_reply iface arp ∷ []) insertion
        else if arp.arp_op == arpop_reply
        then inserted [] insertion
        else handled c [] [])
    else handled c [] []

-- The cache after it, and the frames sent.
unfoldable pub iface_send_packet_by_arp :
    (now : ℕ) → Iface → (dst_ip : ℕ) → List ℕ → ArpCache → ArpCache × List Frame
iface_send_packet_by_arp now iface dst_ip packet c = elim (arpcache_lookup dst_ip c) [
  | some dst_mac ↦ (c, ip_frame dst_mac iface.mac packet ∷ [])
  | none ↦
      let (c', asks) = arpcache_append_packet now iface.index dst_ip packet c in
      (c', if asks then arp_send_request iface dst_ip ∷ [] else [])
]
