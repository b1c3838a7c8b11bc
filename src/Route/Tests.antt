-- ===== src/Route/Tests.antt =====
-- The theorems on routing at concrete tables.
use ucas_computer_network_la.Prelude.{List, [], ◌∷◌}
use ucas_computer_network_la.Route.{RtEntry, new_rt_entry, longest_prefix_match, ip_forward_packet}
use ucas_computer_network_la.Route.Longest.{Longest, longest_prefix_match-Longest}
use ucas_computer_network_la.Route.Forward.{Decided, ip_forward_packet-Decided}

-- 10.0.0.0/8 by 10.9.9.9 on interface 1, 10.1.0.0/16 at interface 2.
abbrev two_routes : List RtEntry
two_routes =
    new_rt_entry 167772160 4278190080 168364297 1 ∷ new_rt_entry 167837696 4294901760 0 2 ∷ []

longest_prefix_match-Longest_example :
    Longest 167837697 two_routes (longest_prefix_match 167837697 two_routes)
longest_prefix_match-Longest_example = longest_prefix_match-Longest 167837697 two_routes

ip_forward_packet_example :
    Decided 167837697 9
      (longest_prefix_match 167837697 two_routes)
      (ip_forward_packet two_routes 167837697 9)
ip_forward_packet_example = ip_forward_packet-Decided two_routes 167837697 9
