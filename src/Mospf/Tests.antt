-- ===== src/Mospf/Tests.antt =====
-- The theorems on the link state routing at a router with two interfaces.
use ucas_computer_network_la.Prelude.{
  ℕ, ◌≡◌, ◌++◌, refl, [], ◌∷◌, none, some, arith, ◌==◌, keep_if, List,
}
use ucas_computer_network_la.Route.{RtEntry, new_rt_entry, add_rt_entry}
use ucas_computer_network_la.Mospf.{Nbr, Iface, DbEntry, Router, LsuPacket}
use ucas_computer_network_la.Mospf.Updates.{handle_mospf_lsu}
use ucas_computer_network_la.Mospf.Database.{Handled, handle_mospf_lsu-Handled}
use ucas_computer_network_la.Mospf.Graph.{
  Array, dijkstra, Paths, unreached, dijkstra_rounds, min_dist, min_from, relax, relax_one,
  is_shorter, start, link, write, init_graph, add_entries, add_links, locate_entry, locate_from,
  router_list,
}
use ucas_computer_network_la.Mospf.Graph.Shortest.{IsShortest, dijkstra-IsShortest}
use ucas_computer_network_la.Mospf.Routes.{
  first_hop, generate_rtable, writes_before_visited, add_rounds, add_routes, find_gateway, find_nbr,
  add_networks, has_route,
}
use ucas_computer_network_la.Mospf.Routes.Hops.{NextHop, first_hop-NextHop}
use ucas_computer_network_la.Mospf.Routes.Table.{Ends, generate_rtable-Ends}

abbrev nbr2 : Nbr
nbr2 = record { nbr_id = 2; nbr_ip = 258; nbr_mask = 65280; alive = 15 }

abbrev nbr3 : Nbr
nbr3 = record { nbr_id = 3; nbr_ip = 771; nbr_mask = 65280; alive = 2 }

abbrev eth0 : Iface
eth0 = record { ip = 257; mask = 65280; helloint = 5; num_nbr = 1; nbr_list = nbr2 ∷ [] }

abbrev eth1 : Iface
eth1 = record { ip = 769; mask = 65280; helloint = 5; num_nbr = 1; nbr_list = nbr3 ∷ [] }

abbrev entry2 : DbEntry
entry2 = record {
  rid = 2;
  seq = 4;
  nadv = 2;
  alive = 3;
  room = 2;
  array =
      record { network = 256; mask = 65280; rid = 1 }
      ∷ record { network = 1024; mask = 65280; rid = 0 }
      ∷ [];
}

abbrev router1 : Router
router1 = record {
  area_id = 0;
  router_id = 1;
  sequence_num = 9;
  iface_list = eth0 ∷ eth1 ∷ [];
  mospf_db = entry2 ∷ [];
}

abbrev update : LsuPacket
update = record {
  saddr = 258;
  daddr = 257;
  rid = 2;
  seq = 5;
  ttl = 255;
  nadv = 1;
  lsa = record { network = 256; mask = 65280; rid = 1 } ∷ [];
}

handle_mospf_lsu-Handled_example : Handled update router1 (handle_mospf_lsu update router1)
handle_mospf_lsu-Handled_example =
    handle_mospf_lsu-Handled update router1 (refl, omega arith, omega arith) (tt, tt) (omega arith)

-- Three routers in a row, the second of which is a neighbour.
abbrev row : Array (Array ℕ)
row = link 0 1 (link 1 2 (λ _ _. 0))

abbrev row_paths : Paths
row_paths = elim (dijkstra row 3) [ none ↦ start | some s ↦ s ]

dijkstra-IsShortest_example : IsShortest row 3 (dijkstra row 3)
dijkstra-IsShortest_example = dijkstra-IsShortest row 3 (omega arith)

first_hop-NextHop_example : NextHop row 3 row_paths 2 (first_hop unreached row_paths.prev 2)
unfolding dijkstra dijkstra_rounds min_dist min_from relax relax_one is_shorter start link write
first_hop-NextHop_example =
    first_hop-NextHop row 3 2 row_paths refl (omega arith) (λ e. omega (arith, e)) (omega arith)

abbrev connected : List RtEntry
connected =
    record { dest = 256; mask = 65280; gw = 0; iface = 0 }
    ∷ record { dest = 768; mask = 65280; gw = 0; iface = 1 }
    ∷ []

-- The turn adds a route to the network that the neighbour announces, and then leaves its arrays.
turn_of_router1 :
    generate_rtable router1 connected
    ≡ writes_before_visited
        (connected ++ record { dest = 1024; mask = 65280; gw = 258; iface = 0 } ∷ [])
unfolding generate_rtable init_graph add_entries add_links locate_entry locate_from router_list link
    write dijkstra dijkstra_rounds min_dist min_from relax relax_one is_shorter start add_rounds
    add_routes first_hop find_gateway find_nbr add_networks has_route new_rt_entry add_rt_entry
turn_of_router1 = refl

generate_rtable-Ends_example :
    Ends (keep_if (λ e. e.gw == 0) connected) (generate_rtable router1 connected)
generate_rtable-Ends_example = generate_rtable-Ends router1 connected
