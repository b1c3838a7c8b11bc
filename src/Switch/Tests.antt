-- ===== src/Switch/Tests.antt =====
-- A run of the switch of Lab4/05-switching, and its theorems at inputs.
use ucas_computer_network_la.Prelude.{ℕ, ◌≡◌, refl, List, [], ◌∷◌, arith}
use ucas_computer_network_la.Switch.{
  Table, lookup_port, init_mac_port_table, sweep_aged_mac_port_entry, sweep_list, count_aged,
  is_aged,
}
use ucas_computer_network_la.Hash.{hash8, hash8_from}
use ucas_computer_network_la.Switch.Runs.{
  Frame, handle_packets, switch, Represents, starts, sweeps, handle_packets-switch,
}
use ucas_computer_network_la.Switch.Sweep.{sweep_misses-Overdue}

abbrev mac_a : List ℕ
mac_a = 2 ∷ 0 ∷ 0 ∷ 0 ∷ 0 ∷ 7 ∷ []

abbrev mac_b : List ℕ
mac_b = 2 ∷ 0 ∷ 0 ∷ 0 ∷ 0 ∷ 9 ∷ []

hash8-mac : hash8 mac_a ≡ 5
unfolding hash8 hash8_from
hash8-mac = refl

-- Two entries of one list: one 30 seconds old, one 40.
abbrev aged : Table
aged =
    (record { mac = mac_a; iface = 1; visited = 70 }
      ∷ record { mac = mac_b; iface = 2; visited = 60 }
      ∷ [])
    ∷ []

sweep-aged :
    sweep_aged_mac_port_entry 100 aged
    ≡ (1, (record { mac = mac_b; iface = 2; visited = 60 } ∷ []) ∷ [])
unfolding sweep_aged_mac_port_entry sweep_list count_aged is_aged
sweep-aged = refl

sweep_misses-Overdue_example : sweep_aged_mac_port_entry 101 aged ≡ (0, aged)
sweep_misses-Overdue_example = sweep_misses-Overdue 101 aged (omega arith)

-- Two hosts that speak to each other, after a sweep.
abbrev frames : List Frame
frames =
    record { iface = 1; dhost = mac_b; shost = mac_a; now = 5 }
    ∷ record { iface = 2; dhost = mac_a; shost = mac_b; now = 6 }
    ∷ []

handle_packets-switch_example :
    let t = (sweep_aged_mac_port_entry 4 init_mac_port_table).1 in
    let (outs, t') = handle_packets (1 ∷ 2 ∷ 3 ∷ []) frames t in
    let (outs', ports') = switch (1 ∷ 2 ∷ 3 ∷ []) frames (λ m. lookup_port m t) in
    (outs ≡ outs') × Represents t' ports'
handle_packets-switch_example =
    handle_packets-switch (1 ∷ 2 ∷ 3 ∷ []) frames
      (sweep_aged_mac_port_entry 4 init_mac_port_table).1 (sweeps starts 4)
