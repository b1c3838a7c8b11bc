-- ===== src/Arp.antt =====
-- The ARP cache of Lab10/12-nat: arpcache.c. A packet is its bytes, an
-- interface its index; the clock and the random number are arguments, the lock makes each operation
-- one step, and the layout of ARP packets is left out.
pub mod Sweep
pub mod Messages
pub mod Exchange
mod Tests
use ucas_computer_network_la.Prelude.{
  ℕ, zero, suc, ◌+◌, ◌-◌, ◌%◌, Bool, true, false, not, ◌&&◌, List, [], ◌∷◌, ◌++◌, Option, none,
  some, ltb, leb, ◌==◌, if◌then◌else◌, get_or, set, map,
}

abbrev pub max_arp_size : ℕ
max_arp_size = 32

abbrev pub arp_entry_timeout : ℕ
arp_entry_timeout = 15

abbrev pub arp_request_max_retries : ℕ
arp_request_max_retries = 5

pub record ArpCacheEntry : Type 0 where
  pub ip4 : ℕ
  pub mac : List ℕ
  pub added : ℕ
  pub valid : Bool

pub record ArpReq : Type 0 where
  pub iface : ℕ
  pub ip4 : ℕ
  pub sent : ℕ
  pub retries : ℕ
  pub cached_packets : List (List ℕ)

pub record ArpCache : Type 0 where
  pub entries : List ArpCacheEntry
  pub req_list : List ArpReq

-- `entry->valid && entry->ip4 == ip4`.
pub is_entry_of : ℕ → ArpCacheEntry → Bool
is_entry_of ip4 e = e.valid && e.ip4 == ip4

pub find_mac : ℕ → List ArpCacheEntry → Option (List ℕ)
find_mac ip4 [] = none
find_mac ip4 (e ∷ es) = if is_entry_of ip4 e then some e.mac else find_mac ip4 es

unfoldable pub arpcache_lookup : ℕ → ArpCache → Option (List ℕ)
arpcache_lookup ip4 c = find_mac ip4 c.entries

-- The request of that interface and address with the packet at its end; none if there is none.
pub append_to : ℕ → ℕ → List ℕ → List ArpReq → Option (List ArpReq)
append_to iface ip4 packet [] = none
append_to iface ip4 packet (r ∷ rs) =
    let rest = append_to iface ip4 packet rs in
    if r.iface == iface && r.ip4 == ip4
    then some (record r { cached_packets = r.cached_packets ++ packet ∷ [] } ∷ rs)
    else (elim rest [ none ↦ none | some rs' ↦ some (r ∷ rs') ])

-- The cache, and whether an ARP request is sent.
pub arpcache_append_packet : ℕ → ℕ → ℕ → List ℕ → ArpCache → ArpCache × Bool
arpcache_append_packet now iface ip4 packet c = elim (append_to iface ip4 packet c.req_list) [
  | some reqs ↦ (record c { req_list = reqs }, false)
  | none ↦ (
    record c {
      req_list =
          record { iface = iface; ip4 = ip4; sent = now; retries = 1; cached_packets = packet ∷ [] }
          ∷ c.req_list;
    },
    true,
  )
]

-- The loop of arpcache_insert: every entry of the address is renewed.
pub renew : ℕ → ℕ → List ℕ → List ArpCacheEntry → List ArpCacheEntry
renew now ip4 mac es =
    map (λ e. if is_entry_of ip4 e then record e { mac = mac; added = now } else e) es

pub has_free : List ArpCacheEntry → Bool
has_free [] = false
has_free (e ∷ es) = let rest = has_free es in if e.valid then rest else true

pub is_found : Option (List ℕ) → Bool
is_found none = false
is_found (some mac) = true

-- The entries after an insertion, with the random number given; where no slot is free the code writes
-- to entries[-1], which is `none`.
pub insert_entry : ℕ → ℕ → ℕ → List ℕ → List ArpCacheEntry → Option (List ArpCacheEntry)
insert_entry now random ip4 mac es =
    if is_found (find_mac ip4 es)
    then some (renew now ip4 mac es)
    else if has_free es
    then some (
        set es (random % max_arp_size) (record { ip4 = ip4; mac = mac; added = now; valid = true }))
    else none

-- The packets of the first request of the address, with its interface, and the requests left.
pub take_pending : ℕ → List ArpReq → List (ℕ × List ℕ) × List ArpReq
take_pending ip4 [] = ([], [])
take_pending ip4 (r ∷ rs) =
    let (sent, rest) = take_pending ip4 rs in
    if r.ip4 == ip4 then (map (λ p. (r.iface, p)) r.cached_packets, rs) else (sent, r ∷ rest)

pub arpcache_insert : ℕ → ℕ → ℕ → List ℕ → ArpCache → Option (ArpCache × List (ℕ × List ℕ))
arpcache_insert now random ip4 mac c = elim (insert_entry now random ip4 mac c.entries) [
  | none ↦ none
  | some entries ↦
      let (sent, reqs) = take_pending ip4 c.req_list in
      some (record { entries = entries; req_list = reqs }, sent)
]

-- The sweep of the entries.
expire : ℕ → ArpCacheEntry → ArpCacheEntry
expire now e =
    if e.valid && leb arp_entry_timeout (now - e.added) then record e { valid = false } else e

-- The sweep of the requests: those left, those that are sent again, and the packets given up.
pub sweep_requests : ℕ → List ArpReq → List ArpReq × List (ℕ × ℕ) × List (List ℕ)
sweep_requests now [] = ([], [], [])
sweep_requests now (r ∷ rs) =
    let (rest, resent, given_up) = sweep_requests now rs in
    if ltb (now - r.sent) 1
    then (r ∷ rest, resent, given_up)
    else if ltb r.retries arp_request_max_retries
    then (record r { retries = r.retries + 1 } ∷ rest, (r.iface, r.ip4) ∷ resent, given_up)
    else (rest, resent, r.cached_packets ++ given_up)

pub arpcache_sweep : ℕ → ArpCache → ArpCache × List (ℕ × ℕ) × List (List ℕ)
arpcache_sweep now c =
    let (reqs, resent, given_up) = sweep_requests now c.req_list in
    (record { entries = map (expire now) c.entries; req_list = reqs }, resent, given_up)
