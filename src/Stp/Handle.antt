-- ===== src/Stp/Handle.antt =====
-- What a packet does to a switch of Lab5/06-stp/stp.c: the root port stays the source of the view of
-- the switch, and that view goes out on the designated ports.
use Prim.Native.Nat.{◌^◌}
use ucas_computer_network_la.Prelude.{
  ℕ, zero, suc, ◌%◌, ◌+◌, ◌<◌, ◌≡◌, refl, ◌∙◌, inl, inr, true, false, List, Option, none, some,
  arith, ==_refl, Bool-cases, length, get_or, set, length-set, get_or-set_self, get_or-set_ne,
}
use native.Mathlib.Decide.{ℕ_discrete}
use ucas_computer_network_la.Stp.{
  Stp, Config, no_port, stp_is_root_switch, stp_port_is_designated, stp_port_is_root, root_port_id,
  is_that_id, config_packet_priority_cmp, update_stp_status, update_port, update_ports_from,
  update_port_config, stop_unless_root, adopt, stp_handle_config_packet, stp_init,
  replace_port_config, stp_stop_timer,
}
use ucas_computer_network_la.Stp.Status.{Settled, update_stp_status-Settled}

-- The view of the switch comes from its root port, which is not designated, and its cost is that of the
-- port and that to the port, added as words of 32 bits; without a root port the switch is the root at
-- cost 0.
abbrev pub RootsAt : Stp → Option ℕ → Type 0
RootsAt s none = (s.designated_root ≡ s.switch_id) × (s.root_path_cost ≡ 0)
RootsAt s (some k) =
    let q = get_or s.ports k no_port in
    (k < length s.ports)
    × (stp_port_is_designated s.switch_id q ≡ false)
    × (s.designated_root ≡ q.designated_root)
    × (s.root_path_cost ≡ (q.designated_cost + q.path_cost) % 2 ^ 32)

abbrev pub IsConsistent : Stp → Type 0
IsConsistent s = RootsAt s s.root_port

Settled-RootsAt : (s : Stp) (o : Option ℕ) → Settled s o → RootsAt s o
Settled-RootsAt s none h = (h.1, h.2)
Settled-RootsAt s (some k) h = (h.0, h.1, h.3, h.4)

root_port-is_root :
    (s : Stp) (k : ℕ) → s.root_port ≡ some k → stp_port_is_root s (get_or s.ports k no_port) ≡ true
unfolding stp_port_is_root root_port_id is_that_id
root_port-is_root s k e = rw (e, root_port_id) (==_refl (get_or s.ports k no_port).port_id)

-- `update_port_config` leaves the root port as it is.
update_port-root :
    (s : Stp) (k : ℕ)
    → s.root_port ≡ some k
    → stp_port_is_designated s.switch_id (get_or s.ports k no_port) ≡ false
    → update_port s (get_or s.ports k no_port) ≡ get_or s.ports k no_port
unfolding update_port
update_port-root s k e free = rw (free, root_port-is_root s k e)

abbrev turn : Stp → ℕ → Stp
turn s i = record s { ports = set s.ports i (update_port s (get_or s.ports i no_port)) }

get-turn :
    (s : Stp) (k i : ℕ)
    → s.root_port ≡ some k
    → k < length s.ports
    → stp_port_is_designated s.switch_id (get_or s.ports k no_port) ≡ false
    → get_or (turn s i).ports k no_port ≡ get_or s.ports k no_port
get-turn s k i e lt free = elim (ℕ_discrete i k) [
  | yes same ↦ rw same (
      get_or-set_self s.ports k (update_port s (get_or s.ports k no_port)) no_port lt
      ∙ update_port-root s k e free)
  | no other ↦ get_or-set_ne s.ports i k (update_port s (get_or s.ports i no_port)) no_port other
]

turn-RootsAt :
    (s : Stp) (i : ℕ) (o : Option ℕ) → s.root_port ≡ o → RootsAt s o → RootsAt (turn s i) o
turn-RootsAt s i none e h = h
turn-RootsAt s i (some k) e h =
    let kept = get-turn s k i e h.0 h.1 in
    (
      omega (arith, h.0, length-set s.ports i (update_port s (get_or s.ports i no_port))),
      rw kept h.1,
      rw kept h.2,
      rw kept h.3,
    )

update_ports_from-IsConsistent :
    (n i : ℕ) (s : Stp) → IsConsistent s → IsConsistent (update_ports_from n i s)
unfolding update_ports_from
update_ports_from-IsConsistent zero i s h = h
update_ports_from-IsConsistent (suc n) i s h =
    update_ports_from-IsConsistent n (suc i) (turn s i) (turn-RootsAt s i s.root_port refl h)

stop_unless_root-IsConsistent : (s : Stp) → IsConsistent s → IsConsistent (stop_unless_root s)
unfolding stop_unless_root
stop_unless_root-IsConsistent s h = elim (Bool-cases (stp_is_root_switch s)) [
  | inl e ↦ rw e h
  | inr e ↦ rw e (same_roots s.root_port h)
]
  where
    same_roots :
        (o : Option ℕ)
        → RootsAt s o
        → RootsAt (record s { hello_timer = stp_stop_timer s.hello_timer }) o
    same_roots none r = r
    same_roots (some k) r = r

adopt-IsConsistent : (s : Stp) (i : ℕ) (c : Config) → IsConsistent (adopt s i c)
unfolding adopt update_port_config
adopt-IsConsistent s i c =
    let replaced = record s {
      ports = set s.ports i (replace_port_config (get_or s.ports i no_port) c);
    } in
    let t = update_stp_status replaced in
    stop_unless_root-IsConsistent _ (
      update_ports_from-IsConsistent (length t.ports) 0 t
        (Settled-RootsAt t t.root_port (update_stp_status-Settled replaced)))

-- A packet keeps the view of the switch tied to its root port, on both branches: the switch has the root
-- that this port announces, at the announced cost and that of the port, added as words of 32 bits, and
-- without a root port it is the root at cost 0.
pub stp_handle_config_packet-IsConsistent :
    (s : Stp) (i : ℕ) (c : Config)
    → IsConsistent s
    → IsConsistent (stp_handle_config_packet s i c).0
unfolding stp_handle_config_packet
stp_handle_config_packet-IsConsistent s i c h =
    elim (Bool-cases (config_packet_priority_cmp (get_or s.ports i no_port) c)) [
      | inl wins ↦ rw wins (adopt-IsConsistent s i c)
      | inr loses ↦ rw loses h
    ]

-- The start of the program is consistent.
pub stp_init-IsConsistent : (mac : List ℕ) (nports now : ℕ) → IsConsistent (stp_init mac nports now)
unfolding stp_init
stp_init-IsConsistent mac nports now = (refl, refl)
