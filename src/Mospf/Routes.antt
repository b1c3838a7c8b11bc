-- ===== src/Mospf/Routes.antt =====
-- generate_rtable_thread of Lab9/11-mopsf/mospf_daemon.c, one turn; rtable.c is that of Route.antt.
pub mod Hops
pub mod Table
use ucas_computer_network_la.Prelude.{
  ℕ, zero, suc, ◌+◌, Bool, true, false, not, ◌&&◌, List, [], ◌∷◌, ◌++◌, Option, none, some, ltb,
  leb, ◌==◌, if◌then◌else◌, length, keep_if, get_or,
}
use ucas_computer_network_la.Route.{RtEntry, new_rt_entry, add_rt_entry}
use ucas_computer_network_la.Mospf.{DbEntry, Lsa, Nbr, Iface, Router}
use ucas_computer_network_la.Mospf.Graph.{
  Array, write, unreached, Paths, min_dist, router_list, init_graph, dijkstra,
}

-- `while (prev[t] != 0) t = prev[t];` with `fuel` turns to go; `none` where it reads prev[-1].
unfoldable pub first_hop : ℕ → Array (Option ℕ) → ℕ → Option ℕ
first_hop zero prev t = none
first_hop (suc fuel) prev t = elim (prev t) [
  | none ↦ none
  | some zero ↦ some t
  | some (suc p) ↦ first_hop fuel prev (suc p)
]

-- The address of a neighbour, and the index of the interface that it is on.
unfoldable pub find_nbr : ℕ → List Nbr → Option ℕ
find_nbr id [] = none
find_nbr id (n ∷ ns) = if n.nbr_id == id then some n.nbr_ip else find_nbr id ns

unfoldable pub find_gateway : ℕ → ℕ → List Iface → Option (ℕ × ℕ)
find_gateway id k [] = none
find_gateway id k (i ∷ is) = elim (find_nbr id i.nbr_list) [
  | some gw ↦ some (k, gw)
  | none ↦ find_gateway id (suc k) is
]

-- Whether the table has an entry for the network.
unfoldable pub has_route : ℕ → ℕ → List RtEntry → Bool
has_route network mask [] = false
has_route network mask (e ∷ es) =
    if e.dest == network && e.mask == mask then true else has_route network mask es

-- The networks of one entry of the database.
unfoldable pub add_networks : ℕ → ℕ → List Lsa → List RtEntry → List RtEntry
add_networks gw k [] rtable = rtable
add_networks gw k (a ∷ rest) rtable = add_networks gw k rest (
    if has_route a.network a.mask rtable
    then rtable
    else add_rt_entry (new_rt_entry a.network a.mask gw k) rtable)

-- The inner loop over the database for the place `t`, which the search of the next hop moves; this
-- search is given 127 turns.
unfoldable pub add_routes :
    Array (Option ℕ) → List ℕ → List Iface → List DbEntry → ℕ → List RtEntry → Option (List RtEntry)
add_routes prev routers ifaces [] t rtable = some rtable
add_routes prev routers ifaces (e ∷ es) t rtable = elim (e.rid == get_or routers t 0) [
  | false ↦ add_routes prev routers ifaces es t rtable
  | true ↦ elim (first_hop unreached prev t) [
    | none ↦ none
    | some hop ↦ elim (find_gateway (get_or routers hop 0) 0 ifaces) [
      | none ↦ some rtable
      | some (k, gw) ↦ add_routes prev routers ifaces es hop (add_networks gw k e.array rtable)
    ]
  ]
]

-- How a turn of the thread ends: it comes to its end; or, with the table as it is then, it has found no
-- place left and writes visited[-1], which is outside the array; or it leaves its arrays in another way,
-- with more than 4 routers, a link to a router that is not in the list, or a read of prev[-1].
pub data Turn : Type 0 where
  finished writes_before_visited : List RtEntry → Turn
  outside : Turn

-- The outer loop, in `rounds` rounds.
unfoldable pub add_rounds :
    (rounds num : ℕ) → Paths → List ℕ → List Iface → List DbEntry → Array Bool → List RtEntry → Turn
add_rounds zero num s routers ifaces db visited rtable = finished rtable
add_rounds (suc rounds) num s routers ifaces db visited rtable =
    elim (min_dist num s.dist visited) [
      | none ↦ writes_before_visited rtable
      | some t ↦ elim (add_routes s.prev routers ifaces db t rtable) [
        | none ↦ outside
        | some rtable' ↦ add_rounds rounds num s routers ifaces db (write visited t true) rtable'
      ]
    ]

unfoldable pub generate_rtable : Router → List RtEntry → Turn
generate_rtable r rtable =
    let routers = router_list r.router_id r.mospf_db in
    let num = length routers in
    let connected = keep_if (λ e. e.gw == 0) rtable in
    elim (init_graph r.router_id r.mospf_db) [
      | none ↦ outside
      | some graph ↦ elim (dijkstra graph num) [
        | none ↦ outside
        | some s ↦
            add_rounds num num s routers r.iface_list r.mospf_db (write (λ _. false) 0 true)
              connected
      ]
    ]
