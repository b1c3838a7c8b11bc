-- ===== src/Stp/Priority.antt =====
-- The priority order of ports and packets in Lab5/06-stp/stp.c.
use ucas_computer_network_la.Prelude.{ℕ, ◌<◌, ◌≡◌, ◌↔◌, ◌⊎◌, Bool, true, false, arith}
use ucas_computer_network_la.Stp.{
  Port, Config, first_field, by_sign, config_packet_priority_cmp, port_priority_cmp,
  replace_port_config,
}

-- The order of two vectors, smaller first: by root, then cost, then switch, then port.
abbrev pub Before : (r' c' s' p' r c s p : ℕ) → Type 0
Before r' c' s' p' r c s p =
    (r' < r) ⊎ (r' ≡ r) × ((c' < c) ⊎ (c' ≡ c) × ((s' < s) ⊎ (s' ≡ s) × (p' < p)))

-- A packet wins exactly if its vector comes before that of the port.
pub config_packet_priority_cmp_iff :
    (p : Port) (c : Config)
    → (config_packet_priority_cmp p c ≡ true)
      ↔ Before c.root_id c.root_path_cost c.switch_id c.port_id p.designated_root p.designated_cost
          p.designated_switch p.designated_port
unfolding config_packet_priority_cmp
config_packet_priority_cmp_iff p c = (ground arith, ground arith)

-- The order of the announcements that two ports have, their costs as signed numbers.
abbrev pub Precedes : Port → Port → Type 0
Precedes q p =
    Before q.designated_root (by_sign q.designated_cost) q.designated_switch q.designated_port
      p.designated_root (by_sign p.designated_cost) p.designated_switch p.designated_port

-- A port that does not win over another one does not come before it.
pub port_priority_cmp-Precedes : (p q : Port) → port_priority_cmp p q ≡ false → Precedes q p → ⊥
unfolding port_priority_cmp
port_priority_cmp-Precedes p q h = ground (arith, h)

step_trans :
    (x y z : ℕ) (r s t : Bool)
    → (r ≡ true → s ≡ true → t ≡ true)
    → first_field x y r ≡ true
    → first_field y z s ≡ true
    → first_field x z t ≡ true
step_trans x y z r s t h = ground arith

step_neg_trans :
    (x y z : ℕ) (r s t : Bool)
    → (r ≡ false → s ≡ false → t ≡ false)
    → first_field x y r ≡ false
    → first_field y z s ≡ false
    → first_field x z t ≡ false
step_neg_trans x y z r s t h = ground arith

-- The comparison of ports, by root, signed cost, switch and port of the announcements, is transitive.
pub port_priority_cmp_trans :
    (a b c : Port)
    → port_priority_cmp a b ≡ true
    → port_priority_cmp b c ≡ true
    → port_priority_cmp a c ≡ true
unfolding port_priority_cmp
port_priority_cmp_trans a b c =
    step_trans a.designated_root b.designated_root c.designated_root _ _ _ (
      step_trans (by_sign a.designated_cost) (by_sign b.designated_cost) (by_sign c.designated_cost)
        _ _ _
        (step_trans a.designated_switch b.designated_switch c.designated_switch _ _ _ (
          step_trans a.designated_port b.designated_port c.designated_port false false false
            (λ e _. e))))

-- If neither the second wins over the first nor the third over the second, then neither does the
-- third over the first.
pub port_priority_cmp_neg_trans :
    (a b c : Port)
    → port_priority_cmp a b ≡ false
    → port_priority_cmp b c ≡ false
    → port_priority_cmp a c ≡ false
unfolding port_priority_cmp
port_priority_cmp_neg_trans a b c =
    step_neg_trans a.designated_root b.designated_root c.designated_root _ _ _ (
      step_neg_trans (by_sign a.designated_cost) (by_sign b.designated_cost)
        (by_sign c.designated_cost) _ _ _
        (step_neg_trans a.designated_switch b.designated_switch c.designated_switch _ _ _ (
          step_neg_trans a.designated_port b.designated_port c.designated_port false false false
            (λ e _. e))))

pub port_priority_cmp_irrefl : (a : Port) → port_priority_cmp a a ≡ false
unfolding port_priority_cmp
port_priority_cmp_irrefl a = ground arith

-- After a packet is taken up it does not win a second time: the same packet is then answered.
pub replace_port_config_settles :
    (p : Port) (c : Config) → config_packet_priority_cmp (replace_port_config p c) c ≡ false
unfolding config_packet_priority_cmp replace_port_config
replace_port_config_settles p c = ground arith
