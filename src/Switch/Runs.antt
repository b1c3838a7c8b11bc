-- ===== src/Switch/Runs.antt =====
-- The switch of Lab4/05-switching over a sequence of frames, against a switch with a plain map.
use ucas_computer_network_la.Prelude.{
  ℕ, suc, ◌≡◌, refl, ap, ap₂, ◌∙◌, Bool, not, List, [], ◌∷◌, Option, some, arith, if◌then◌else◌,
  keep_if, length,
}
use ucas_computer_network_la.Switch.{
  Entry, Table, same_mac, lookup_port, insert_mac_port, init_mac_port_table, forward, handle_packet,
  is_aged, sweep_list, sweep_aged_mac_port_entry,
}
use ucas_computer_network_la.Switch.Table.{
  HashIs, HashedFrom, IsHashed, insert_mac_port-IsHashed, lookup_port-insert_mac_port,
  init_mac_port_table-IsHashed,
}

-- A frame, with the interface and the time at which it comes in.
pub record Frame : Type 0 where
  pub iface : ℕ
  pub dhost : List ℕ
  pub shost : List ℕ
  pub now : ℕ

-- The interfaces that each frame goes out on, and the table in the end.
abbrev pub handle_packets : List ℕ → List Frame → Table → List (List ℕ) × Table
handle_packets ifaces [] t = ([], t)
handle_packets ifaces (f ∷ fs) t =
    let (out, t') = handle_packet ifaces f.iface f.dhost f.shost f.now t in
    let (outs, t'') = handle_packets ifaces fs t' in (out ∷ outs, t'')

-- What a learning switch promises: it knows the interface on which each address was last a source,
-- sends a frame for a known address there, and any other frame to all other interfaces.
abbrev pub Ports : Type 0
Ports = List ℕ → Option ℕ

abbrev pub learn : List ℕ → ℕ → Ports → Ports
learn mac iface ports m = if same_mac mac m then some iface else ports m

abbrev pub switch : List ℕ → List Frame → Ports → List (List ℕ) × Ports
switch ifaces [] ports = ([], ports)
switch ifaces (f ∷ fs) ports =
    let (outs, ports') = switch ifaces fs (learn f.shost f.iface ports) in
    (forward ifaces f.iface (ports f.dhost) ∷ outs, ports')

-- The table stands for the map.
pub record Represents (t : Table) (ports : Ports) : Type 0 where
  pub table : IsHashed t
  pub agrees : (m : List ℕ) → lookup_port m t ≡ ports m

insert_mac_port-Represents :
    (mac : List ℕ) (iface now : ℕ) (t : Table) (ports : Ports)
    → Represents t ports
    → Represents (insert_mac_port mac iface now t) (learn mac iface ports)
insert_mac_port-Represents mac iface now t ports r = record {
  table = insert_mac_port-IsHashed mac iface now t r.table;
  agrees = λ m.
      lookup_port-insert_mac_port mac m iface now t r.table
      ∙ ap (λ o. if same_mac mac m then some iface else o) (r.agrees m);
}

-- Over any sequence of frames each frame goes out on the same interfaces as from the plain map, and
-- the table in the end stands for the map in the end.
pub handle_packets-Represents :
    (ifaces : List ℕ) (fs : List Frame) (t : Table) (ports : Ports)
    → Represents t ports
    → let (outs, t') = handle_packets ifaces fs t in
      let (outs', ports') = switch ifaces fs ports in (outs ≡ outs') × Represents t' ports'
unfolding handle_packet
handle_packets-Represents ifaces [] t ports r = (refl, r)
handle_packets-Represents ifaces (f ∷ fs) t ports r =
    let t' = insert_mac_port f.shost f.iface f.now t in
    let rest =
      handle_packets-Represents ifaces fs t' (learn f.shost f.iface ports)
        (insert_mac_port-Represents f.shost f.iface f.now t ports r) in
    (ap₂ (λ o outs. forward ifaces f.iface o ∷ outs) (r.agrees f.dhost) rest.0, rest.1)

keep_if-HashIs :
    (k : ℕ) (p : Entry → Bool) (es : List Entry) → HashIs k es → HashIs k (keep_if p es)
keep_if-HashIs k p [] h = tt
keep_if-HashIs k p (e ∷ es) h = ground (arith, keep_if-HashIs k p es h.1, h.0)

sweep-HashedFrom :
    (now k : ℕ) (t : Table)
    → HashedFrom k t
    → HashedFrom k (sweep_aged_mac_port_entry now t).1
      × (length (sweep_aged_mac_port_entry now t).1 ≡ length t)
unfolding sweep_aged_mac_port_entry sweep_list
sweep-HashedFrom now k [] h = (tt, refl)
sweep-HashedFrom now k (b ∷ bs) h =
    let rest = sweep-HashedFrom now (suc k) bs h.1 in
    ((keep_if-HashIs k (λ e. not (is_aged now e)) b h.0, rest.0), ap suc rest.1)

-- A run that starts with an empty table and in which sweeps come between runs of frames.
pub data Served (ifaces : List ℕ) : Table → Type 0 where
  starts : Served ifaces init_mac_port_table
  serves :
      {t : Table}
      → Served ifaces t
      → (fs : List Frame) → Served ifaces (handle_packets ifaces fs t).1
  sweeps :
      {t : Table} → Served ifaces t → (now : ℕ) → Served ifaces (sweep_aged_mac_port_entry now t).1

Served-IsHashed : {ifaces : List ℕ} {t : Table} → Served ifaces t → IsHashed t
Served-IsHashed starts = init_mac_port_table-IsHashed
Served-IsHashed {ifaces} (serves {t} s fs) =
    (handle_packets-Represents ifaces fs t (λ m. lookup_port m t)
      (record { table = Served-IsHashed s; agrees = λ m. refl })).1.table
Served-IsHashed (sweeps {t} s now) =
    let swept = sweep-HashedFrom now 0 t (Served-IsHashed s).hashed in
    record { hashed = swept.0; lists = swept.1 ∙ (Served-IsHashed s).lists }

-- At any time since the start, sweeps included, the switch serves the frames that come next as the
-- plain map would that holds what the table holds at this time, until the next sweep.
pub handle_packets-switch :
    (ifaces : List ℕ) (fs : List Frame) (t : Table)
    → Served ifaces t
    → let (outs, t') = handle_packets ifaces fs t in
      let (outs', ports') = switch ifaces fs (λ m. lookup_port m t) in
      (outs ≡ outs') × Represents t' ports'
handle_packets-switch ifaces fs t s =
    handle_packets-Represents ifaces fs t (λ m. lookup_port m t)
      (record { table = Served-IsHashed s; agrees = λ m. refl })
