-- ===== src/Route/Forward.antt =====
-- The TTL in ip_forward_packet of Lab10/12-nat/ip_base.c ends every chain of routers.
use ucas_computer_network_la.Prelude.{
  ℕ, suc, ◌+◌, ◌≤◌, ◌<◌, ◌≡◌, refl, inl, inr, List, [], ◌∷◌, Option, none, some, arith, leb, ◌==◌,
  if◌then◌else◌, Option-cases, Bool-cases,
}
use ucas_computer_network_la.Route.{
  RtEntry, Fate, time_exceeded, net_unreach, dropped, sent_by_arp, longest_prefix_match,
  get_next_hop, hand_over, ip_forward_packet,
}

-- The fate of a packet of TTL `ttl` at a router, by the route of its destination.
abbrev pub Decided : ℕ → ℕ → Option RtEntry → Fate → Type 0
Decided dst ttl route time_exceeded = ttl ≤ 1
Decided dst ttl route net_unreach = (1 < ttl) × (route ≡ none)
Decided dst ttl route dropped = ⊥
Decided dst ttl route (sent_by_arp iface hop t) =
    (t + 1 ≡ ttl)
    × (1 < ttl)
    × ((e : RtEntry) × (route ≡ some e)
        × (iface ≡ e.iface)
        × (hop ≡ (if e.gw == 0 then dst else e.gw)))

-- A packet is answered by "time exceeded" only at TTL 0 or 1, by "network unreachable" only where
-- there is a TTL to spare and no route, and is otherwise handed on once: by the interface of the
-- selected route, to its gateway or to the destination itself, with a TTL one less.
pub ip_forward_packet-Decided :
    (rtable : List RtEntry) (dst ttl : ℕ)
    → Decided dst ttl (longest_prefix_match dst rtable) (ip_forward_packet rtable dst ttl)
unfolding ip_forward_packet hand_over get_next_hop
ip_forward_packet-Decided rtable dst ttl = elim (Option-cases (longest_prefix_match dst rtable)) [
  | inl e ↦ rw e (ground arith)
  | inr (r, e) ↦ rw e (elim (Bool-cases (leb ttl 1)) [
    | inl spent ↦ rw spent (ground arith)
    | inr left ↦ rw left (ground arith, ground arith, (r, refl, refl, ground arith))
  ])
]

-- What a hand-over adds to the routers counted behind it.
after_hop : Fate → (ℕ → ℕ) → ℕ
after_hop (sent_by_arp iface hop t) rest = suc (rest t)
after_hop _ rest = 0

-- The number of routers of a chain that hand the packet on, before one does not.
pub hops : List (List RtEntry) → ℕ → ℕ → ℕ
hops [] dst ttl = 0
hops (rtable ∷ rest) dst ttl = after_hop (ip_forward_packet rtable dst ttl) (hops rest dst)

after_hop-lt :
    (dst ttl : ℕ) (route : Option RtEntry) (f : Fate) (rest : ℕ → ℕ)
    → 0 < ttl
    → ((t : ℕ) → 0 < t → rest t < t)
    → Decided dst ttl route f
    → after_hop f rest < ttl
unfolding after_hop
after_hop-lt dst ttl route time_exceeded rest h deeper d = h
after_hop-lt dst ttl route net_unreach rest h deeper d = h
after_hop-lt dst ttl route dropped rest h deeper d = elim d [ ]
after_hop-lt dst ttl route (sent_by_arp iface hop t) rest h deeper d =
    omega (arith, deeper t (omega (arith, d.0, d.1)), d.0)

-- Whatever the tables of the routers on its way, loops included, fewer routers hand a packet on
-- than its TTL counts.
pub hops-lt-ttl :
    (rtables : List (List RtEntry)) (dst ttl : ℕ) → 0 < ttl → hops rtables dst ttl < ttl
unfolding hops
hops-lt-ttl [] dst ttl h = h
hops-lt-ttl (rtable ∷ rest) dst ttl h =
    after_hop-lt dst ttl (longest_prefix_match dst rtable) (ip_forward_packet rtable dst ttl)
      (hops rest dst) h (hops-lt-ttl rest dst) (ip_forward_packet-Decided rtable dst ttl)
