-- ===== src/Switch.antt =====
-- The learning switch of Lab4/05-switching: the port table of mac.c,
-- handle_packet of main.c and broadcast_packet of broadcast.c. An interface is its index, a MAC
-- address its bytes, and the time of each call is an argument. A frame that is sent is an item of
-- the result. The lock is not modelled: each function of mac.c is one critical section.
pub mod Table
pub mod Learning
pub mod Sweep
pub mod Runs
mod Tests
use ucas_computer_network_la.Prelude.{
  ℕ, ◌+◌, ◌-◌, ◌%◌, Bool, true, false, not, ◌&&◌, List, [], ◌∷◌, ◌++◌, map, Option, none, some,
  ◌==◌, if◌then◌else◌, length, get_or, set, replicate, keep_if,
}
use ucas_computer_network_la.Hash.{hash_8bits, hash8}

-- `MAC_PORT_TIMEOUT`, in seconds.
abbrev pub mac_port_timeout : ℕ
mac_port_timeout = 30

-- `memcmp(...) == 0`, on addresses of one length.
pub same_mac : List ℕ → List ℕ → Bool
same_mac [] [] = true
same_mac [] (y ∷ ys) = false
same_mac (x ∷ xs) [] = false
same_mac (x ∷ xs) (y ∷ ys) = (x == y) && same_mac xs ys

-- `struct mac_port_entry`.
pub record Entry : Type 0 where
  pub mac : List ℕ
  pub iface : ℕ
  pub visited : ℕ

-- `hash_table`: one list of entries for each hash value.
abbrev pub Table : Type 0
Table = List (List Entry)

pub init_mac_port_table : Table
init_mac_port_table = replicate hash_8bits []

pub find : List ℕ → List Entry → Option ℕ
find mac [] = none
find mac (e ∷ es) = if same_mac e.mac mac then some e.iface else find mac es

-- `none` is the null pointer.
pub lookup_port : List ℕ → Table → Option ℕ
lookup_port mac t = find mac (get_or t (hash8 mac) [])

-- One list of the search in `insert_mac_port`: the first entry of that address is brought up to
-- date; `none` if there is none.
pub touch : List ℕ → ℕ → ℕ → List Entry → Option (List Entry)
touch mac iface now [] = none
touch mac iface now (e ∷ es) = elim (same_mac e.mac mac) [
  | true ↦ some (record e { iface = iface; visited = now } ∷ es)
  | false ↦ elim (touch mac iface now es) [ none ↦ none | some es' ↦ some (e ∷ es') ]
]

-- The search goes through all lists, not only that of the hash.
pub touch_all : List ℕ → ℕ → ℕ → Table → Option Table
touch_all mac iface now [] = none
touch_all mac iface now (b ∷ bs) = elim (touch mac iface now b) [
  | some b' ↦ some (b' ∷ bs)
  | none ↦ elim (touch_all mac iface now bs) [ none ↦ none | some bs' ↦ some (b ∷ bs') ]
]

pub insert_mac_port : List ℕ → ℕ → ℕ → Table → Table
insert_mac_port mac iface now t = elim (touch_all mac iface now t) [
  | some t' ↦ t'
  | none ↦
      set t (hash8 mac)
        (get_or t (hash8 mac) [] ++ record { mac = mac; iface = iface; visited = now } ∷ [])
]

-- `now - entry->visited == MAC_PORT_TIMEOUT`; the clock does not run backwards.
pub is_aged : ℕ → Entry → Bool
is_aged now e = e.visited + mac_port_timeout == now

pub sweep_list : ℕ → List Entry → List Entry
sweep_list now es = keep_if (λ e. not (is_aged now e)) es

pub count_aged : ℕ → List Entry → ℕ
count_aged now es = length (keep_if (is_aged now) es)

-- The table that is left and the number of entries removed.
pub sweep_aged_mac_port_entry : ℕ → Table → ℕ × Table
sweep_aged_mac_port_entry now [] = (0, [])
sweep_aged_mac_port_entry now (b ∷ bs) =
    let (n, bs') = sweep_aged_mac_port_entry now bs in
    (count_aged now b + n, sweep_list now b ∷ bs')

-- The interfaces that a frame is sent on: all but the one that it came in on.
pub broadcast_packet : List ℕ → ℕ → List ℕ
broadcast_packet ifaces iface = keep_if (λ i. not (i == iface)) ifaces

-- Where a frame goes: to the port of its destination, or to all others.
pub forward : List ℕ → ℕ → Option ℕ → List ℕ
forward ifaces iface (some dst) = dst ∷ []
forward ifaces iface none = broadcast_packet ifaces iface

-- The interfaces that the frame is sent on, and the table. `dhost` and `shost` are the addresses
-- in the Ethernet header.
pub handle_packet : List ℕ → ℕ → List ℕ → List ℕ → ℕ → Table → List ℕ × Table
handle_packet ifaces iface dhost shost now t =
    (forward ifaces iface (lookup_port dhost t), insert_mac_port shost iface now t)
