-- ===== src/Nat/Upkeep.antt =====
-- The sweep of the table of Lab10/12-nat/nat.c, its start and its end, and the digits of its settings.
use ucas_computer_network_la.Prelude.{
  ℕ, zero, suc, ◌+◌, ◌-◌, ◌*◌, ◌%◌, ◌^◌, Bool, false, not, ◌&&◌, ◌||◌, List, [], ◌∷◌, Option, none,
  some, ltb, leb, ◌==◌, if◌then◌else◌, replicate,
}
use ucas_computer_network_la.Nat.{
  tcp_established_timeout, Conn, Mapping, DnatRule, NatTable, with_port, with_list,
}

unfoldable pub is_flow_finished : Conn → Bool
is_flow_finished c =
    (not (c.internal_fin == 0) && not (c.external_fin == 0))
    && leb c.external_seq_end c.internal_ack
    && leb c.internal_seq_end c.external_ack

-- A turn of the loop of nat_timeout, on one list and on all of them.
unfoldable pub is_over : ℕ → Mapping → Bool
is_over now m = ltb tcp_established_timeout (now - m.update_time) || is_flow_finished m.conn

unfoldable pub sweep_list : ℕ → List Mapping → (ℕ → Bool) → List Mapping × (ℕ → Bool)
sweep_list now [] assigned = ([], assigned)
sweep_list now (m ∷ ms) assigned =
    if is_over now m
    then sweep_list now ms (with_port m.external_port false assigned)
    else (let (rest, assigned') = sweep_list now ms assigned in (m ∷ rest, assigned'))

unfoldable pub sweep_lists : ℕ → List (List Mapping) → (ℕ → Bool) → List (List Mapping) × (ℕ → Bool)
sweep_lists now [] assigned = ([], assigned)
sweep_lists now (ms ∷ rest) assigned =
    let (ms', assigned') = sweep_list now ms assigned in
    let (rest', assigned'') = sweep_lists now rest assigned' in (ms' ∷ rest', assigned'')

unfoldable pub nat_timeout : ℕ → NatTable → NatTable
nat_timeout now nat =
    let (lists, assigned) = sweep_lists now nat.nat_mapping_list nat.assigned_ports in
    record nat { nat_mapping_list = lists; assigned_ports = assigned }

-- ip_trans: the digits of an address in ASCII; `tmp` is an unsigned char, `ip` a u32.
unfoldable pub ip_trans_from : ℕ → ℕ → List ℕ → ℕ
ip_trans_from ip tmp [] = (ip * 256 + tmp) % 2 ^ 32
ip_trans_from ip tmp (c ∷ cs) =
    if c == 46
    then ip_trans_from ((ip * 256 + tmp) % 2 ^ 32) 0 cs
    else ip_trans_from ip ((tmp * 10 + c + 208) % 256) cs

unfoldable pub ip_trans : List ℕ → ℕ
ip_trans str_ip = ip_trans_from 0 0 str_ip

unfoldable pub nat_init : (internal external ip : ℕ) → List DnatRule → NatTable
nat_init internal external ip rules = record {
  nat_mapping_list = replicate 256 [];
  internal_index = internal;
  external_index = external;
  external_iface_ip = ip;
  assigned_ports = λ _. false;
  rules = rules;
}

-- nat_exit, whose counter `i` is a `u8`, with `fuel` turns to go.
unfoldable pub nat_exit_from : ℕ → ℕ → NatTable → Option NatTable
nat_exit_from zero i nat = none
nat_exit_from (suc fuel) i nat =
    if ltb i 256 then nat_exit_from fuel ((i + 1) % 256) (with_list i [] nat) else some nat

unfoldable pub nat_exit : ℕ → NatTable → Option NatTable
nat_exit fuel nat = nat_exit_from fuel 0 nat
