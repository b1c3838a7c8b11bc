-- ===== src/Stp.antt =====
-- The spanning tree protocol of Lab5/06-stp/stp.c on one switch, with the timer of stp_timer.c.
-- Numbers of a packet are in host order; the constant fields of the packet and its Ethernet and LLC
-- headers are left out. A cost is the 32-bit word that an `int` field or the `u32` of a packet holds:
-- a sum wraps around at 2^32 (what an overflow of `int` does, where the C standard leaves it open),
-- two `int` costs are compared as signed numbers, and an `int` with a `u32` as unsigned ones.
-- `root_port` is the index of the port that the pointer names. A packet that is sent is an item of
-- the result: the index of its port and its contents.
pub mod Priority
pub mod Status
pub mod Handle
pub mod Hello
mod Tests
use Prim.Native.Nat.{bit_or, ◌*◌, ◌^◌}
use ucas_computer_network_la.Prelude.{
  ℕ, zero, suc, ◌+◌, ◌%◌, Bool, true, false, not, ◌&&◌, List, [], ◌∷◌, ◌++◌, Option, none, some,
  ltb, leb, ◌==◌, if◌then◌else◌, length, get_or, set,
}

-- `struct stp_port`.
pub record Port : Type 0 where
  pub port_id : ℕ
  pub path_cost : ℕ
  pub designated_root : ℕ
  pub designated_switch : ℕ
  pub designated_port : ℕ
  pub designated_cost : ℕ

-- `stp_timer_t`.
pub record Timer : Type 0 where
  pub active : Bool
  pub time : ℕ
  pub timeout : ℕ

-- `struct stp`.
pub record Stp : Type 0 where
  pub switch_id : ℕ
  pub designated_root : ℕ
  pub root_path_cost : ℕ
  pub root_port : Option ℕ
  pub hello_timer : Timer
  pub ports : List Port

-- `struct stp_config`.
pub record Config : Type 0 where
  pub root_id : ℕ
  pub root_path_cost : ℕ
  pub switch_id : ℕ
  pub port_id : ℕ

abbrev pub no_port : Port
no_port = record {
  port_id = 0;
  path_cost = 0;
  designated_root = 0;
  designated_switch = 0;
  designated_port = 0;
  designated_cost = 0;
}

pub stp_is_root_switch : Stp → Bool
stp_is_root_switch s = s.designated_root == s.switch_id

pub stp_port_is_designated : ℕ → Port → Bool
stp_port_is_designated switch_id p =
    (p.designated_switch == switch_id) && (p.designated_port == p.port_id)

-- `root_port->port_id`, if there is a root port.
root_port_id : Stp → Option ℕ
root_port_id s = elim s.root_port [ none ↦ none | some i ↦ some (get_or s.ports i no_port).port_id ]

is_that_id : Option ℕ → ℕ → Bool
is_that_id none id = false
is_that_id (some r) id = id == r

pub stp_port_is_root : Stp → Port → Bool
stp_port_is_root s p = is_that_id (root_port_id s) p.port_id

pub data Role : Type 0 where
  root designated alternate : Role

pub stp_port_state : Stp → Port → Role
stp_port_state s p =
    if stp_port_is_root s p
    then root
    else if stp_port_is_designated s.switch_id p
    then designated
    else alternate

pub is_some : Option ℕ → Bool
is_some none = false
is_some (some i) = true

-- The port at index `i` sends the view of the switch; nothing while that view is in the making.
pub stp_port_send_config : Stp → ℕ → Port → List (ℕ × Config)
stp_port_send_config s i p =
    if not (stp_is_root_switch s) && not (is_some s.root_port)
    then []
    else (
      i,
      record {
        root_id = s.designated_root;
        root_path_cost = s.root_path_cost;
        switch_id = s.switch_id;
        port_id = p.port_id;
      },
    )
      ∷ []

send_from : Stp → ℕ → List Port → List (ℕ × Config)
send_from s i [] = []
send_from s i (p ∷ ps) =
    (if stp_port_is_designated s.switch_id p then stp_port_send_config s i p else [])
    ++ send_from s (suc i) ps

pub stp_send_config : Stp → List (ℕ × Config)
stp_send_config s = send_from s 0 s.ports

pub stp_start_timer : Timer → ℕ → Timer
stp_start_timer t now = record t { active = true; time = now }

pub stp_stop_timer : Timer → Timer
stp_stop_timer t = record t { active = false }

-- Whether the timer has run out; it is then stopped.
pub stp_check_timer : Timer → ℕ → Bool × Timer
stp_check_timer t now =
    if t.active && leb (t.time + t.timeout) now
    then (true, record t { active = false })
    else (false, t)

pub stp_handle_hello_timeout : Stp → ℕ → Stp × List (ℕ × Config)
stp_handle_hello_timeout s now =
    (record s { hello_timer = stp_start_timer s.hello_timer now }, stp_send_config s)

-- `stp_timer_run_once` on the one timer of the program; `clock` is the time that the handler reads.
pub stp_timer_run_once : Stp → ℕ → ℕ → Stp × List (ℕ × Config)
stp_timer_run_once s now clock =
    let (expired, t) = stp_check_timer s.hello_timer now in
    if expired then stp_handle_hello_timeout (record s { hello_timer = t }) clock else (s, [])

-- One step of the comparison that both of the following make: the first field that differs decides.
abbrev pub first_field : ℕ → ℕ → Bool → Bool
first_field x y rest = if x == y then rest else ltb y x

-- Whether the second vector (root, cost, switch, port) has the higher priority.
abbrev pub higher : (r c s p r' c' s' p' : ℕ) → Bool
higher r c s p r' c' s' p' =
    first_field r r' (first_field c c' (first_field s s' (first_field p p' false)))

-- Whether the packet has the higher priority; `int` and `u32` costs are compared as unsigned words.
pub config_packet_priority_cmp : Port → Config → Bool
config_packet_priority_cmp p c =
    higher p.designated_root p.designated_cost p.designated_switch p.designated_port c.root_id
      c.root_path_cost c.switch_id c.port_id

-- A word moved so that the order of the moved words is that of the words as `int`.
abbrev pub by_sign : ℕ → ℕ
by_sign w = (w + 2 ^ 31) % 2 ^ 32

-- Whether `q` has the higher priority; both costs are of type `int`.
pub port_priority_cmp : Port → Port → Bool
port_priority_cmp p q =
    higher p.designated_root (by_sign p.designated_cost) p.designated_switch p.designated_port
      q.designated_root (by_sign q.designated_cost) q.designated_switch q.designated_port

pub replace_port_config : Port → Config → Port
replace_port_config p c = record p {
  designated_root = c.root_id;
  designated_cost = c.root_path_cost;
  designated_switch = c.switch_id;
  designated_port = c.port_id;
}

-- One turn of the loop of `update_stp_status` at index `i`: `cur` is `cur_root_id` with its port.
choose : ℕ → ℕ → Port → Option (ℕ × Port) → Option (ℕ × Port)
choose switch_id i p none = if stp_port_is_designated switch_id p then none else some (i, p)
choose switch_id i p (some (j, q)) =
    if stp_port_is_designated switch_id p
    then some (j, q)
    else if port_priority_cmp q p
    then some (i, p)
    else some (j, q)

find_root : ℕ → ℕ → List Port → Option (ℕ × Port) → Option (ℕ × Port)
find_root switch_id i [] cur = cur
find_root switch_id i (p ∷ ps) cur = find_root switch_id (suc i) ps (choose switch_id i p cur)

-- A switch has at least one port, so that the loop leaves `find == 0` exactly if it chose none.
pub update_stp_status : Stp → Stp
update_stp_status s = elim (find_root s.switch_id 0 s.ports none) [
  | none ↦ record s { root_port = none; designated_root = s.switch_id; root_path_cost = 0 }
  | some (i, q) ↦ record s {
    root_port = some i;
    designated_root = q.designated_root;
    root_path_cost = (q.designated_cost + q.path_cost) % 2 ^ 32;
  }
]

pub port_stp_all_priority_cmp : ℕ → Port → List Port → Bool
port_stp_all_priority_cmp switch_id p [] = true
port_stp_all_priority_cmp switch_id p (q ∷ qs) =
    not (not (stp_port_is_designated switch_id q) && port_priority_cmp p q)
    && port_stp_all_priority_cmp switch_id p qs

-- The new contents of the port that the loop of `update_port_config` has reached.
update_port : Stp → Port → Port
update_port s p =
    if stp_port_is_designated s.switch_id p
    then record p { designated_root = s.designated_root; designated_cost = s.root_path_cost }
    else if not (stp_port_is_root s p) && port_stp_all_priority_cmp s.switch_id p s.ports
    then record p { designated_switch = s.switch_id; designated_port = p.port_id }
    else p

-- The loop with `n` ports left, at index `i`; each turn sees the ports that the turns before it wrote.
update_ports_from : ℕ → ℕ → Stp → Stp
update_ports_from zero i s = s
update_ports_from (suc n) i s =
    update_ports_from n (suc i)
      (record s { ports = set s.ports i (update_port s (get_or s.ports i no_port)) })

pub update_port_config : Stp → Stp
update_port_config s = update_ports_from (length s.ports) 0 s

stop_unless_root : Stp → Stp
stop_unless_root s =
    if stp_is_root_switch s then s else record s { hello_timer = stp_stop_timer s.hello_timer }

-- The state once the packet on port `i` is taken up, before the new view is sent.
adopt : Stp → ℕ → Config → Stp
adopt s i c = stop_unless_root (
    update_port_config (
      update_stp_status
        (record s { ports = set s.ports i (replace_port_config (get_or s.ports i no_port) c) })))

pub stp_handle_config_packet : Stp → ℕ → Config → Stp × List (ℕ × Config)
stp_handle_config_packet s i c =
    let p = get_or s.ports i no_port in
    if config_packet_priority_cmp p c
    then (adopt s i c, stp_send_config (adopt s i c))
    else (s, stp_port_send_config s i p)

-- The address read as one number: `mac_addr <<= 8; mac_addr += byte`.
mac_number : ℕ → List ℕ → ℕ
mac_number n [] = n
mac_number n (b ∷ bs) = mac_number (n * 256 + b) bs

-- `stp_port_init` for port number `n`, on a switch that takes itself for the root at cost 0.
init_port : ℕ → ℕ → Port
init_port switch_id n =
    let id : ℕ = bit_or (128 * 256) (n + 1) in
    record {
      port_id = id;
      path_cost = 1;
      designated_root = switch_id;
      designated_switch = switch_id;
      designated_port = id;
      designated_cost = 0;
    }

-- The ports numbered `n` and up, `rounds` of them.
init_ports : ℕ → ℕ → ℕ → List Port
init_ports switch_id zero n = []
init_ports switch_id (suc rounds) n = init_port switch_id n ∷ init_ports switch_id rounds (suc n)

-- `mac` is the address of the first interface, `nports` their number, `now` the time of the start.
pub stp_init : List ℕ → ℕ → ℕ → Stp
stp_init mac nports now =
    let id : ℕ = bit_or (mac_number 0 mac) (32768 * 2 ^ 48) in
    record {
      switch_id = id;
      designated_root = id;
      root_path_cost = 0;
      root_port = none;
      hello_timer = stp_start_timer (record { active = false; time = 0; timeout = 512 }) now;
      ports = init_ports id nports 0;
    }
