-- ===== src/Stp/Tests.antt =====
-- A switch of Lab5/06-stp/stp.c with two ports, and the theorems about it.
use ucas_computer_network_la.Prelude.{ℕ, ◌≡◌, refl, true, [], ◌∷◌, none, some}
use ucas_computer_network_la.Stp.{
  Port, Stp, Config, stp_is_root_switch, stp_port_is_designated, config_packet_priority_cmp,
  replace_port_config, choose, find_root, update_stp_status, port_stp_all_priority_cmp, update_port,
  update_ports_from, update_port_config, stop_unless_root, adopt, stp_handle_config_packet,
  stp_timer_run_once,
}
use ucas_computer_network_la.Stp.Status.{Settled, update_stp_status-Settled}
use ucas_computer_network_la.Stp.Handle.{IsConsistent, stp_handle_config_packet-IsConsistent}
use ucas_computer_network_la.Stp.Hello.{adopted_is_silent}

abbrev port_of_five : ℕ → Port
port_of_five n = record {
  port_id = n;
  path_cost = 1;
  designated_root = 5;
  designated_switch = 5;
  designated_port = n;
  designated_cost = 0;
}

-- Switch 5, which takes itself for the root.
abbrev five : Stp
five = record {
  switch_id = 5;
  designated_root = 5;
  root_path_cost = 0;
  root_port = none;
  hello_timer = record { active = true; time = 0; timeout = 512 };
  ports = port_of_five 1 ∷ port_of_five 2 ∷ [];
}

-- Switch 3 announces itself as the root.
abbrev from_three : Config
from_three = record { root_id = 3; root_path_cost = 0; switch_id = 3; port_id = 1 }

abbrev learned : Stp
learned = (stp_handle_config_packet five 0 from_three).0

learned-root :
    (learned.designated_root ≡ 3) × (learned.root_path_cost ≡ 1) × (learned.root_port ≡ some 0)
unfolding stp_handle_config_packet adopt config_packet_priority_cmp replace_port_config
    update_stp_status find_root choose stp_port_is_designated update_port_config update_ports_from
    update_port port_stp_all_priority_cmp stop_unless_root stp_is_root_switch
learned-root = (refl, refl, refl)

update_stp_status_example : Settled (update_stp_status five) (update_stp_status five).root_port
update_stp_status_example = update_stp_status-Settled five

stp_handle_config_packet_example : IsConsistent learned
stp_handle_config_packet_example =
    stp_handle_config_packet-IsConsistent five 0 from_three (refl, refl)

adopted_is_silent_example : stp_timer_run_once learned 9999 9999 ≡ (learned, [])
unfolding stp_handle_config_packet adopt config_packet_priority_cmp replace_port_config
    update_stp_status find_root choose stp_port_is_designated update_port_config update_ports_from
    update_port port_stp_all_priority_cmp stop_unless_root stp_is_root_switch
adopted_is_silent_example = adopted_is_silent five 0 9999 9999 from_three refl refl
