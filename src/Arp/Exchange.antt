-- ===== src/Arp/Exchange.antt =====
-- A question and its answer between two interfaces, over arp.c and arpcache.c of Lab10/12-nat.
use ucas_computer_network_la.Prelude.{
  ℕ, zero, suc, ◌%◌, ◌<◌, ◌≡◌, ◌≢◌, refl, ◌⊎◌, inl, inr, true, false, ◌&&◌, List, [], ◌∷◌, Option,
  none, some, arith, ◌==◌, Bool-cases, set, length,
}
use ucas_computer_network_la.Arp.{
  ArpCache, ArpCacheEntry, ArpReq, is_entry_of, find_mac, arpcache_lookup, append_to,
  arpcache_append_packet, renew, has_free, is_found, insert_entry, take_pending, arpcache_insert,
}
use ucas_computer_network_la.Arp.Messages.{
  Iface, EtherArp, Frame, arp_frame, ip_frame, Handling, overrun, handled, inserted,
  arp_send_request, arp_send_reply, handle_arp_packet, iface_send_packet_by_arp,
}

find_mac-renew :
    (now ip4 : ℕ) (mac : List ℕ) (es : List ArpCacheEntry)
    → is_found (find_mac ip4 es) ≡ true
    → find_mac ip4 (renew now ip4 mac es) ≡ some mac
unfolding renew find_mac is_found is_entry_of
find_mac-renew now ip4 mac [] h = cc
find_mac-renew now ip4 mac (e ∷ es) h = elim (Bool-cases (e.valid && e.ip4 == ip4)) [
  | inl hit ↦ rw hit (rw hit refl)
  | inr miss ↦ rw miss (rw miss (find_mac-renew now ip4 mac es (ground (arith, h, miss))))
]

find_mac-set :
    (ip4 k : ℕ) (new : ArpCacheEntry) (es : List ArpCacheEntry)
    → is_entry_of ip4 new ≡ true
    → k < length es
    → find_mac ip4 es ≡ none
    → find_mac ip4 (set es k new) ≡ some new.mac
unfolding find_mac
find_mac-set ip4 k new [] own inside h = absurd (omega (arith, inside))
find_mac-set ip4 zero new (e ∷ es) own inside h = rw own refl
find_mac-set ip4 (suc k) new (e ∷ es) own inside h = elim (Bool-cases (is_entry_of ip4 e)) [
  | inl hit ↦ absurd (ground (arith, h, hit))
  | inr miss ↦
      rw miss (find_mac-set ip4 k new es own (omega (arith, inside)) (ground (arith, h, miss)))
]

-- The cache has a place for the address: an entry of it, or one that is not valid.
abbrev pub HasPlace : ℕ → ArpCache → Type 0
HasPlace ip4 c =
    (length c.entries ≡ 32)
    × ((is_found (find_mac ip4 c.entries) ≡ true) ⊎ (has_free c.entries ≡ true))

abbrev Holds : ℕ → List ℕ → Option (List ArpCacheEntry) → Type 0
Holds ip4 mac none = ⊥
Holds ip4 mac (some es) = find_mac ip4 es ≡ some mac

insert_entry-Holds :
    (now random ip4 : ℕ) (mac : List ℕ) (c : ArpCache)
    → HasPlace ip4 c
    → Holds ip4 mac (insert_entry now random ip4 mac c.entries)
unfolding insert_entry is_found is_entry_of
insert_entry-Holds now random ip4 mac c h = elim (Bool-cases (is_found (find_mac ip4 c.entries))) [
  | inl found ↦ rw (found, Holds) (find_mac-renew now ip4 mac c.entries found)
  | inr new ↦
      let free : has_free c.entries ≡ true = ground (arith, h.1, new) in
      rw (new, Holds)
        (rw (free, Holds)
          (find_mac-set ip4 (random % 32)
            (record { ip4 = ip4; mac = mac; added = now; valid = true }) c.entries (ground arith)
            (omega (arith, h.0)) (not_found (find_mac ip4 c.entries) new)))
]
  where
    not_found : (o : Option (List ℕ)) → is_found o ≡ false → o ≡ none
    not_found none e = refl
    not_found (some m) e = absurd (ground (arith, e))

-- The cache with the address, and the packets that were waiting for it.
abbrev Kept : ℕ → List ℕ → ArpCache → Option (ArpCache × List (ℕ × List ℕ)) → Type 0
Kept ip4 mac c none = ⊥
Kept ip4 mac c (some (c', flushed)) =
    (arpcache_lookup ip4 c' ≡ some mac)
    × (flushed ≡ (take_pending ip4 c.req_list).0)
    × (c'.req_list ≡ (take_pending ip4 c.req_list).1)

arpcache_insert-Kept :
    (now random ip4 : ℕ) (mac : List ℕ) (c : ArpCache)
    → HasPlace ip4 c
    → Kept ip4 mac c (arpcache_insert now random ip4 mac c)
unfolding arpcache_insert arpcache_lookup
arpcache_insert-Kept now random ip4 mac c h =
    go (insert_entry now random ip4 mac c.entries) (insert_entry-Holds now random ip4 mac c h)
  where
    go :
        (o : Option (List ArpCacheEntry))
        → Holds ip4 mac o
        → Kept ip4 mac c (elim o as (λ _. Option (ArpCache × List (ℕ × List ℕ))) [
          | none ↦ none
          | some entries ↦
              let (sent, reqs) = take_pending ip4 c.req_list in
              some (record { entries = entries; req_list = reqs }, sent)
        ])
    go none k = elim k [ ]
    go (some entries) k = (k, refl, refl)

-- No packet waits for the address.
abbrev pub NoneWaits : ℕ → List ArpReq → Type 0
NoneWaits ip4 [] = Unit {0}
NoneWaits ip4 (r ∷ rs) = (r.ip4 ≢ ip4) × NoneWaits ip4 rs

append_to-none :
    (iface ip4 : ℕ) (packet : List ℕ) (rs : List ArpReq)
    → NoneWaits ip4 rs
    → append_to iface ip4 packet rs ≡ none
unfolding append_to
append_to-none iface ip4 packet [] h = refl
append_to-none iface ip4 packet (r ∷ rs) h =
    let other : (r.iface == iface && r.ip4 == ip4) ≡ false = ground (arith, h.0) in
    rw (other, append_to-none iface ip4 packet rs h.1) refl

-- What an interface does with a frame that reaches it.
abbrev pub deliver : (now random : ℕ) → Iface → Frame → ArpCache → Handling
deliver now random iface (arp_frame dhost shost arp) c = handle_arp_packet now random iface arp c
deliver now random iface (ip_frame dhost shost packet) c = handled c [] []

-- A handling that keeps the address and sends the frames.
abbrev pub Answers : ℕ → List ℕ → ArpCache → List Frame → Handling → Type 0
Answers ip4 mac c frames overrun = ⊥
Answers ip4 mac c frames (handled c' sent flushed) =
    (arpcache_lookup ip4 c' ≡ some mac)
    × (sent ≡ frames)
    × (flushed ≡ (take_pending ip4 c.req_list).0)
    × (c'.req_list ≡ (take_pending ip4 c.req_list).1)

inserted-Answers :
    (ip4 : ℕ) (mac : List ℕ) (c : ArpCache) (frames : List Frame)
    (o : Option (ArpCache × List (ℕ × List ℕ)))
    → Kept ip4 mac c o
    → Answers ip4 mac c frames (inserted frames o)
unfolding inserted
inserted-Answers ip4 mac c frames none k = elim k [ ]
inserted-Answers ip4 mac c frames (some (c', flushed)) k = (k.0, refl, k.1, k.2)

-- The message in a frame.
abbrev pub message : Frame → EtherArp
message (arp_frame dhost shost arp) = arp
message (ip_frame dhost shost packet) = record {
  arp_op = 0;
  arp_sha = [];
  arp_spa = 0;
  arp_tha = [];
  arp_tpa = 0;
}

-- A question at the interface asked for, and an answer at the one that asked.
request-Answers :
    (now random : ℕ) (a b : Iface) (c : ArpCache)
    → HasPlace a.ip c
    → Answers a.ip a.mac c
        (arp_send_reply b (message (arp_send_request a b.ip)) ∷ [])
        (deliver now random b (arp_send_request a b.ip) c)
unfolding arp_send_request handle_arp_packet
request-Answers now random a b c h =
    let own : (b.ip == b.ip) ≡ true = ground arith in
    rw own (
      inserted-Answers a.ip a.mac c _ (arpcache_insert now random a.ip a.mac c)
        (arpcache_insert-Kept now random a.ip a.mac c h))

reply-Answers :
    (now random : ℕ) (a b : Iface) (c : ArpCache)
    → HasPlace b.ip c
    → Answers b.ip b.mac c []
        (deliver now random a (arp_send_reply b (message (arp_send_request a b.ip))) c)
unfolding arp_send_request arp_send_reply handle_arp_packet
reply-Answers now random a b c h =
    let own : (a.ip == a.ip) ≡ true = ground arith in
    rw own (
      inserted-Answers b.ip b.mac c [] (arpcache_insert now random b.ip b.mac c)
        (arpcache_insert-Kept now random b.ip b.mac c h))

-- The cache while a packet waits.
abbrev pub asking : ℕ → ℕ → ℕ → List ℕ → ArpCache → ArpCache
asking now iface ip4 packet c = record c {
  req_list =
      record { iface = iface; ip4 = ip4; sent = now; retries = 1; cached_packets = packet ∷ [] }
      ∷ c.req_list;
}

send-asks :
    (now : ℕ) (a : Iface) (ip4 : ℕ) (packet : List ℕ) (c : ArpCache)
    → arpcache_lookup ip4 c ≡ none
    → NoneWaits ip4 c.req_list
    → iface_send_packet_by_arp now a ip4 packet c
      ≡ (asking now a.index ip4 packet c, arp_send_request a ip4 ∷ [])
unfolding iface_send_packet_by_arp arpcache_append_packet
send-asks now a ip4 packet c unknown quiet =
    rw (unknown, iface_send_packet_by_arp)
      (rw (append_to-none a.index ip4 packet c.req_list quiet, arpcache_append_packet) refl)

asking-flushed :
    (now iface ip4 : ℕ) (packet : List ℕ) (c : ArpCache)
    → take_pending ip4 (asking now iface ip4 packet c).req_list ≡ ((iface, packet) ∷ [], c.req_list)
unfolding take_pending
asking-flushed now iface ip4 packet c = let own : (ip4 == ip4) ≡ true = ground arith in rw own refl

-- A packet for an address that is not in the cache goes out in the end: the router asks for the
-- address, the interface that has it answers and learns the address of the router, and the answer
-- makes the router send the packet, learn the address, and wait for nothing more than before. No
-- other packet waits for the address, and both caches have a place for the address they learn.
pub iface_send_packet_by_arp-Answers :
    (now now' now'' random random' : ℕ) (a b : Iface) (packet : List ℕ) (c c' : ArpCache)
    → arpcache_lookup b.ip c ≡ none
    → NoneWaits b.ip c.req_list
    → HasPlace b.ip c
    → HasPlace a.ip c'
    → let q = arp_send_request a b.ip in
      let r = arp_send_reply b (message q) in
      let (waiting, sent) = iface_send_packet_by_arp now a b.ip packet c in
      (sent ≡ q ∷ [])
      × Answers a.ip a.mac c' (r ∷ []) (deliver now' random b q c')
      × Answers b.ip b.mac waiting [] (deliver now'' random' a r waiting)
      × (take_pending b.ip waiting.req_list ≡ ((a.index, packet) ∷ [], c.req_list))
iface_send_packet_by_arp-Answers now now' now'' random random' a b packet c c' unknown quiet place
      place' =
    rw (send-asks now a b.ip packet c unknown quiet) (
      refl,
      request-Answers now' random a b c' place',
      reply-Answers now'' random' a b (asking now a.index b.ip packet c) place,
      asking-flushed now a.index b.ip packet c,
    )
