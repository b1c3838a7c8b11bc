-- ===== src/Switch/Learning.antt =====
-- What handle_packet of Lab4/05-switching/main.c sends, and what it learns.
use ucas_computer_network_la.Prelude.{
  ℕ, ◌≡◌, refl, Bool, not, ◌&&◌, List, [], ◌∷◌, Option, Option-cases, none, some, arith, ◌==◌,
  if◌then◌else◌, ◌||◌, false,
}
use ucas_computer_network_la.Switch.{
  Table, lookup_port, broadcast_packet, forward, handle_packet, same_mac,
}
use ucas_computer_network_la.Switch.Table.{
  IsHashed, same_mac_iff, lookup_port-insert_mac_port, insert_mac_port-IsHashed,
}

abbrev pub contains : ℕ → List ℕ → Bool
contains i [] = false
contains i (x ∷ xs) = (x == i) || contains i xs

-- A broadcast reaches an interface exactly if it is one of the switch and not the incoming one.
pub contains-broadcast_packet :
    (ifaces : List ℕ) (iface i : ℕ)
    → contains i (broadcast_packet ifaces iface) ≡ (contains i ifaces && not (i == iface))
unfolding broadcast_packet
contains-broadcast_packet [] iface i = refl
contains-broadcast_packet (x ∷ xs) iface i = ground (arith, contains-broadcast_packet xs iface i)

-- The interfaces that a frame should go out on, by what the table says of its destination.
abbrev pub outgoing : List ℕ → ℕ → Option ℕ → List ℕ
outgoing ifaces iface none = broadcast_packet ifaces iface
outgoing ifaces iface (some p) = p ∷ []

-- A frame whose destination is in the table goes to that port alone, any other to all ports but the
-- incoming one; either way the source is found afterwards on the incoming interface, every other
-- address as before, and the table stays in order.
pub handle_packet_lem :
    (ifaces : List ℕ) (iface : ℕ) (dhost shost a : List ℕ) (now : ℕ) (t : Table)
    → IsHashed t
    → let (sent, t') = handle_packet ifaces iface dhost shost now t in
      (sent ≡ outgoing ifaces iface (lookup_port dhost t))
      × (lookup_port a t' ≡ (if same_mac shost a then some iface else lookup_port a t))
      × IsHashed t'
unfolding handle_packet forward
handle_packet_lem ifaces iface dhost shost a now t v = (
  ground (arith, Option-cases (lookup_port dhost t)),
  lookup_port-insert_mac_port shost a iface now t v,
  insert_mac_port-IsHashed shost iface now t v,
)

-- Once a host has sent a frame, the next frame to it, from any other host, goes to its port alone.
pub handle_packet_learns :
    (ifaces : List ℕ) (i j now later : ℕ) (host dhost other : List ℕ) (t : Table)
    → IsHashed t
    → (handle_packet ifaces j host other later (handle_packet ifaces i dhost host now t).1).0
      ≡ i ∷ []
unfolding handle_packet forward
handle_packet_learns ifaces i j now later host dhost other t v =
    ground (arith, lookup_port-insert_mac_port host host i now t v, same_mac_iff host host)
