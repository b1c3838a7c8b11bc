-- ===== src/Arp/Tests.antt =====
-- The theorem on the sweep at a cache with one request.
use ucas_computer_network_la.Prelude.{◌≡◌, refl, inr, [], ◌∷◌, replicate, false}
use ucas_computer_network_la.Arp.{
  ArpCache, ArpCacheEntry, arpcache_lookup, find_mac, is_entry_of, has_free, take_pending,
}
use ucas_computer_network_la.Arp.Messages.{
  Iface, arp_send_request, arp_send_reply, iface_send_packet_by_arp,
}
use ucas_computer_network_la.Arp.Exchange.{
  deliver, Answers, message, iface_send_packet_by_arp-Answers,
}

abbrev one_request : ArpCache
one_request = record {
  entries = [];
  req_list =
      record { iface = 0; ip4 = 167772162; sent = 100; retries = 1; cached_packets = (1 ∷ []) ∷ [] }
      ∷ [];
}

abbrev unused : ArpCacheEntry
unused = record { ip4 = 0; mac = []; added = 0; valid = false }

abbrev empty_cache : ArpCache
empty_cache = record { entries = replicate 32 unused; req_list = [] }

abbrev eth_a : Iface
eth_a = record { index = 0; ip = 167772161; mac = 0 ∷ 1 ∷ 2 ∷ 3 ∷ 4 ∷ 5 ∷ [] }

abbrev eth_b : Iface
eth_b = record { index = 3; ip = 167772162; mac = 0 ∷ 1 ∷ 2 ∷ 3 ∷ 4 ∷ 9 ∷ [] }

iface_send_packet_by_arp-Answers_example :
    let q = arp_send_request eth_a eth_b.ip in
    let r = arp_send_reply eth_b (message q) in
    let (waiting, sent) = iface_send_packet_by_arp 100 eth_a eth_b.ip (42 ∷ []) empty_cache in
    (sent ≡ q ∷ [])
    × Answers eth_a.ip eth_a.mac empty_cache (r ∷ []) (deliver 101 7 eth_b q empty_cache)
    × Answers eth_b.ip eth_b.mac waiting [] (deliver 102 8 eth_a r waiting)
    × (take_pending eth_b.ip waiting.req_list ≡ ((0, 42 ∷ []) ∷ [], []))
unfolding arpcache_lookup find_mac is_entry_of has_free
iface_send_packet_by_arp-Answers_example =
    iface_send_packet_by_arp-Answers 100 101 102 7 8 eth_a eth_b (42 ∷ []) empty_cache empty_cache
      refl tt (refl, inr refl) (refl, inr refl)
