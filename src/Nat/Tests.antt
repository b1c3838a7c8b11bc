-- ===== src/Nat/Tests.antt =====
-- The theorems on the translation at concrete tables.
use ucas_computer_network_la.Prelude.{◌≡◌, refl, [], ◌∷◌, arith, get_or}
use ucas_computer_network_la.Hash.{hash8, hash8_from}
use ucas_computer_network_la.Nat.{
  NatTable, Packet, alloc_port, translate_in, translate_out, find_mapping, is_outbound,
  nat_translate_packet, bucket_of, first_free, with_list, change_mapping, count_outbound,
  new_mapping, to_external, get_packet_direction, dir_out,
}
use ucas_computer_network_la.Nat.Upkeep.{nat_init, nat_timeout}
use ucas_computer_network_la.Nat.Exact.{IsExact}
use ucas_computer_network_la.Nat.Runs.{begins, translates, times_out, nat_init-IsExact}
use ucas_computer_network_la.Nat.Expiry.{ages, translate_out-keeps_ages}
use ucas_computer_network_la.Nat.Bytes.Rewritten.{translated}
use ucas_computer_network_la.Route.{longest_prefix_match, select_from, longer_than, route_covers}
use ucas_computer_network_la.Tcp.{Segment}
use ucas_computer_network_la.Wire.{make_packet}
use ucas_computer_network_la.Wire.Roundtrip.{InRange}
use ucas_computer_network_la.Arp.{ArpCache}
use ucas_computer_network_la.Router.{RouterConfig, handle_ip, send_ip}
use ucas_computer_network_la.Router.Answers.{packet_of, handle_ip-answers}

-- 10.21.0.1 asks 159.226.39.123 for a page; the outer address is 159.226.39.43.
abbrev request : Packet
request = record {
  saddr = 169148417;
  daddr = 2682398587;
  sport = 40000;
  dport = 80;
  seq = 7;
  ack = 0;
  flags = 2;
}

abbrev fresh_table : NatTable
fresh_table = nat_init 0 1 2682398507 []

abbrev busy_table : NatTable
busy_table = (translate_out 5 request fresh_table).1

translate_out-keeps_ages_example :
    ages
      (get_or (translate_out 9 request busy_table).1.nat_mapping_list (bucket_of 2682398587 80) [])
    ≡ ages (get_or busy_table.nat_mapping_list (bucket_of 2682398587 80) [])
unfolding nat_init bucket_of hash8 hash8_from alloc_port first_free translate_out with_list
    find_mapping change_mapping is_outbound count_outbound new_mapping
translate_out-keeps_ages_example =
    translate_out-keeps_ages 9 request busy_table
      (count_outbound request (new_mapping 5 request 2682398507 12345)) (omega arith) refl

-- The inner hosts are behind interface 0.
nat_init-IsExact_example : IsExact (
    nat_timeout 70
      (nat_translate_packet
        (record { dest = 0; mask = 0; gw = 0; iface = 0 } ∷ [])
        5
        6
        request
        fresh_table).1)
nat_init-IsExact_example = nat_init-IsExact 0 1 2682398507 [] tt (
    times_out
      (translates begins (record { dest = 0; mask = 0; gw = 0; iface = 0 } ∷ []) 5 6 request) 70)

-- The router between 10.21.0.0/16, on interface 0, and the rest, on interface 1.
abbrev router_of_two : RouterConfig
router_of_two = record {
  rtable =
      record { dest = 0x0a150000; mask = 0xffff0000; gw = 0; iface = 0 }
      ∷ record { dest = 0; mask = 0; gw = 2682398500; iface = 1 }
      ∷ [];
  ifaces = λ i. record { index = i; ip = 2682398507; mac = 2 ∷ 0 ∷ 0 ∷ 0 ∷ 0 ∷ i ∷ [] };
  ips = 169148671 ∷ 2682398507 ∷ [];
}

abbrev no_requests : ArpCache
no_requests = record { entries = []; req_list = [] }

abbrev ask : Segment
ask = record {
  saddr = 169148417;
  daddr = 2682398587;
  sport = 40000;
  dport = 80;
  seq = 7;
  ack = 0;
  flags = 2;
  rwnd = 65535;
  payload = [];
}

abbrev page : Segment
page = record {
  saddr = 2682398587;
  daddr = 2682398507;
  sport = 80;
  dport = 12345;
  seq = 900;
  ack = 8;
  flags = 24;
  rwnd = 4000;
  payload = 79 ∷ 75 ∷ [];
}

ask-InRange : InRange ask
ask-InRange = omega arith

page-InRange : InRange page
page-InRange = omega arith

handle_ip-answers_example :
    (handle_ip router_of_two 5
        (router_of_two.ifaces 0)
        (make_packet 1 0 ask)
        (record { nat = fresh_table; arpcache = no_requests })
      ≡ send_ip router_of_two 5
          (make_packet 1 0 (translated dir_out (translate_out 5 (packet_of ask) fresh_table).0 ask))
          (record {
            nat = (translate_out 5 (packet_of ask) fresh_table).1;
            arpcache = no_requests;
          }))
    × (handle_ip router_of_two 6
          (router_of_two.ifaces 1)
          (make_packet 2 0 page)
          (record { nat = (translate_out 5 (packet_of ask) fresh_table).1; arpcache = no_requests })
        ≡ send_ip router_of_two 6
            (make_packet 2 0 (record page { daddr = 169148417; dport = 40000 }))
            (record {
              nat =
                  (translate_in 6
                    (packet_of page)
                    (translate_out 5 (packet_of ask) fresh_table).1).1;
              arpcache = no_requests;
            }))
unfolding nat_init bucket_of hash8 hash8_from alloc_port first_free translate_out with_list
    find_mapping is_outbound new_mapping to_external get_packet_direction longest_prefix_match
    select_from longer_than route_covers
handle_ip-answers_example =
    handle_ip-answers router_of_two 5 6 1 0 2 0 (router_of_two.ifaces 0) (router_of_two.ifaces 1)
      ask page (record { nat = fresh_table; arpcache = no_requests })
      (record { nat = (translate_out 5 (packet_of ask) fresh_table).1; arpcache = no_requests })
      ask-InRange page-InRange refl refl (omega arith) tt tt (omega arith) refl refl
