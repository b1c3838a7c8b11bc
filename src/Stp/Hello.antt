-- ===== src/Stp/Hello.antt =====
-- Who sends configuration packets in Lab5/06-stp/stp.c, and when its hello timer fires.
use ucas_computer_network_la.Prelude.{
  ℕ, zero, suc, ◌+◌, ◌<◌, ◌≡◌, refl, Bool, true, false, ◌&&◌, ◌||◌, List, [], ◌∷◌, arith, ltb, leb,
  ◌==◌, if◌then◌else◌, length, get_or, ap, sym, ◌∙◌,
}
use ucas_computer_network_la.Stp.{
  Port, Stp, Config, Timer, no_port, stp_is_root_switch, stp_port_is_designated, is_some,
  stp_port_send_config, send_from, stp_send_config, config_packet_priority_cmp, stop_unless_root,
  adopt, stp_handle_config_packet, stp_check_timer, stp_timer_run_once, stp_handle_hello_timeout,
  stp_start_timer, stp_stop_timer,
}

-- The packets that go out on port `j`.
abbrev pub sent_on : ℕ → List (ℕ × Config) → List Config
sent_on j [] = []
sent_on j ((i, c) ∷ sent) = let rest = sent_on j sent in if i == j then c ∷ rest else rest

-- The view of the switch, as port `p` announces it.
abbrev pub view : Stp → Port → Config
view s p = record {
  root_id = s.designated_root;
  root_path_cost = s.root_path_cost;
  switch_id = s.switch_id;
  port_id = p.port_id;
}

-- A switch speaks if it is the root or has a root port.
abbrev pub speaks : Stp → Bool
speaks s = stp_is_root_switch s || is_some s.root_port

-- What one port sends.
abbrev pub announced : Stp → Port → List Config
announced s p = if stp_port_is_designated s.switch_id p && speaks s then view s p ∷ [] else []

sent_on-below : (s : Stp) (j i : ℕ) (ps : List Port) → j < i → sent_on j (send_from s i ps) ≡ []
unfolding send_from stp_port_send_config
sent_on-below s j i [] h = refl
sent_on-below s j i (p ∷ ps) h = ground (arith, sent_on-below s j (suc i) ps)

sent_on-send_from :
    (s : Stp) (j i : ℕ) (ps : List Port)
    → sent_on (j + i) (send_from s i ps)
      ≡ (if ltb j (length ps) then announced s (get_or ps j no_port) else [])
unfolding send_from stp_port_send_config
sent_on-send_from s j i [] = ground arith
sent_on-send_from s zero i (p ∷ ps) = ground (arith, sent_on-below s (zero + i) (suc i) ps)
sent_on-send_from s (suc j) i (p ∷ ps) = ground (
  arith,
  sent_on-send_from s j (suc i) ps,
  ap (λ k. sent_on k (send_from s (suc i) ps)) {x = suc j + i} {y = j + suc i} (omega arith),
)

-- A port sends exactly one packet, the view of the switch, if it is designated and the switch is
-- the root or has a root port; otherwise it sends none.
pub sent_on-stp_send_config :
    (s : Stp) (j : ℕ)
    → j < length s.ports
    → sent_on j (stp_send_config s) ≡ announced s (get_or s.ports j no_port)
unfolding stp_send_config
sent_on-stp_send_config s j h = ground (
  arith,
  sent_on-send_from s j 0 s.ports,
  ap (λ k. sent_on k (send_from s 0 s.ports)) {x = j + 0} {y = j} (omega arith),
)

send_from-timer :
    (s : Stp) (t : Timer) (i : ℕ) (ps : List Port)
    → send_from (record s { hello_timer = t }) i ps ≡ send_from s i ps
unfolding send_from stp_port_send_config stp_is_root_switch
send_from-timer s t i [] = refl
send_from-timer s t i (p ∷ ps) = ground (arith, send_from-timer s t (suc i) ps)

stp_send_config-timer :
    (s : Stp) (t : Timer) → stp_send_config (record s { hello_timer = t }) ≡ stp_send_config s
unfolding stp_send_config
stp_send_config-timer s t = send_from-timer s t 0 s.ports

-- When the hello timer is active and run out, the switch announces its view and arms the timer at
-- the time that the handler reads; otherwise nothing happens.
pub stp_timer_run_once_lem :
    (s : Stp) (now clock : ℕ)
    → let t = s.hello_timer in
      stp_timer_run_once s now clock ≡ (
        if t.active && leb (t.time + t.timeout) now
        then (
          record s { hello_timer = record t { active = true; time = clock } },
          stp_send_config s,
        )
        else (s, []))
unfolding stp_timer_run_once stp_check_timer stp_handle_hello_timeout stp_start_timer
stp_timer_run_once_lem s now clock =
    ground (arith, stp_send_config-timer s (record s.hello_timer { active = false }))

stop_unless_root-stops :
    (s : Stp)
    → stp_is_root_switch (stop_unless_root s) ≡ false
    → (stop_unless_root s).hello_timer.active ≡ false
unfolding stop_unless_root stp_stop_timer
stop_unless_root-stops s h = ground arith

stopped_is_silent :
    (s : Stp) (now clock : ℕ)
    → s.hello_timer.active ≡ false
    → stp_timer_run_once s now clock ≡ (s, [])
stopped_is_silent s now clock still = stp_timer_run_once_lem s now clock ∙ ground arith

adopt-stops :
    (s : Stp) (i : ℕ) (c : Config)
    → stp_is_root_switch (adopt s i c) ≡ false
    → (adopt s i c).hello_timer.active ≡ false
unfolding adopt
adopt-stops s i c = stop_unless_root-stops _

handle-adopt :
    (s : Stp) (i : ℕ) (c : Config)
    → config_packet_priority_cmp (get_or s.ports i no_port) c ≡ true
    → (stp_handle_config_packet s i c).0 ≡ adopt s i c
unfolding stp_handle_config_packet
handle-adopt s i c wins = rw wins refl

-- A switch that takes up a packet and is not the root afterwards falls silent: its hello timer does
-- not fire at any time.
pub adopted_is_silent :
    (s : Stp) (i now clock : ℕ) (c : Config)
    → config_packet_priority_cmp (get_or s.ports i no_port) c ≡ true
    → stp_is_root_switch (stp_handle_config_packet s i c).0 ≡ false
    → stp_timer_run_once (stp_handle_config_packet s i c).0 now clock
      ≡ ((stp_handle_config_packet s i c).0, [])
adopted_is_silent s i now clock c wins foreign = stopped_is_silent _ now clock (
    ap (λ t. t.hello_timer.active) (handle-adopt s i c wins)
    ∙ adopt-stops s i c (ap stp_is_root_switch (sym (handle-adopt s i c wins)) ∙ foreign))
