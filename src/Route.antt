-- ===== src/Route.antt =====
-- Routing and forwarding of Lab10/12-nat: the table of rtable.c, and ip_base.c. An interface is its
-- index. Of a packet only what these functions read is kept; the checksums are left out.
pub mod Longest
pub mod Forward
mod Tests
use Prim.Native.Nat.{bit_and}
use ucas_computer_network_la.Prelude.{
  ℕ, ◌-◌, Bool, true, false, not, ◌&&◌, List, [], ◌∷◌, ◌++◌, Option, none, some, ltb, leb, ◌==◌,
  if◌then◌else◌,
}

-- `rt_entry_t`.
pub record RtEntry : Type 0 where
  pub dest : ℕ
  pub mask : ℕ
  pub gw : ℕ
  pub iface : ℕ

unfoldable pub new_rt_entry : (dest mask gw iface : ℕ) → RtEntry
new_rt_entry dest mask gw iface = record { dest = dest; mask = mask; gw = gw; iface = iface }

unfoldable pub add_rt_entry : RtEntry → List RtEntry → List RtEntry
add_rt_entry entry rtable = rtable ++ entry ∷ []

-- `(dst & entry->mask) == (entry->dest & entry->mask)`.
unfoldable pub route_covers : ℕ → RtEntry → Bool
route_covers dst e = bit_and dst e.mask == bit_and e.dest e.mask

-- `!selected || selected->mask < entry->mask`.
unfoldable pub longer_than : Option RtEntry → RtEntry → Bool
longer_than none e = true
longer_than (some s) e = ltb s.mask e.mask

unfoldable pub select_from : ℕ → Option RtEntry → List RtEntry → Option RtEntry
select_from dst selected [] = selected
select_from dst selected (e ∷ es) =
    select_from dst (if route_covers dst e && longer_than selected e then some e else selected) es

unfoldable pub longest_prefix_match : ℕ → List RtEntry → Option RtEntry
longest_prefix_match dst rtable = select_from dst none rtable

pub get_next_hop : RtEntry → ℕ → ℕ
get_next_hop entry dst = if not (entry.gw == 0) then entry.gw else dst

-- What becomes of a packet: an ICMP message back to its source, a hand-over to the ARP layer with
-- the interface, the next hop and the TTL that it carries then, or nothing.
pub data Fate : Type 0 where
  time_exceeded net_unreach dropped : Fate
  sent_by_arp : (iface next_hop ttl : ℕ) → Fate

hand_over : ℕ → ℕ → Fate → Option RtEntry → Fate
hand_over dst ttl otherwise none = otherwise
hand_over dst ttl otherwise (some entry) = sent_by_arp entry.iface (get_next_hop entry dst) ttl

pub ip_forward_packet : List RtEntry → ℕ → ℕ → Fate
ip_forward_packet rtable ip_dst ttl =
    if leb ttl 1
    then time_exceeded
    else hand_over ip_dst (ttl - 1) net_unreach (longest_prefix_match ip_dst rtable)

pub ip_send_packet : List RtEntry → ℕ → ℕ → Fate
ip_send_packet rtable dst ttl = hand_over dst ttl dropped (longest_prefix_match dst rtable)
