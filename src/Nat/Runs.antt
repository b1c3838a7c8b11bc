-- ===== src/Nat/Runs.antt =====
-- The ports of the table of Lab10/12-nat/nat.c over any sequence of packets and sweeps.
use ucas_computer_network_la.Prelude.{
  ℕ, ◌∙◌, Bool, true, false, not, List, [], Option, none, some, arith, ◌==◌, if◌then◌else◌,
  length-replicate,
}
use ucas_computer_network_la.Route.{RtEntry}
use ucas_computer_network_la.Nat.{
  NatTable, Mapping, Packet, DnatRule, Direction, dir_in, dir_out, dir_invalid, Verdict,
  unreachable, dropped, crashed, do_translation, get_packet_direction, nat_translate_packet,
}
use ucas_computer_network_la.Nat.Upkeep.{nat_timeout, nat_init}
use ucas_computer_network_la.Nat.Counts.{uses_all-replicate, sweep_lists-uses, sweep_lists-length}
use ucas_computer_network_la.Nat.Exact.{
  AllOutside, IsExact, translate_in-IsExact, translate_out-IsExact,
}

nat_timeout-IsExact : (now : ℕ) (nat : NatTable) → IsExact nat → IsExact (nat_timeout now nat)
unfolding nat_timeout
nat_timeout-IsExact now nat x = record {
  lists = sweep_lists-length now nat.nat_mapping_list nat.assigned_ports ∙ x.lists;
  exact = λ p low high. omega (
    arith,
    sweep_lists-uses now p 0 nat.nat_mapping_list nat.assigned_ports
        (omega (arith, x.exact p low high)),
  );
  outside = x.outside;
}

do_translation-IsExact :
    (now : ℕ) (p : Packet) (dir : Direction) (nat : NatTable)
    → IsExact nat
    → IsExact (do_translation now p dir nat).1
unfolding do_translation
do_translation-IsExact now p dir_in nat x = translate_in-IsExact now p nat x
do_translation-IsExact now p dir_out nat x = translate_out-IsExact now p nat x
do_translation-IsExact now p dir_invalid nat x = x

nat_translate_packet-IsExact :
    (rtable : List RtEntry) (now protocol : ℕ) (p : Packet) (nat : NatTable)
    → IsExact nat
    → IsExact (nat_translate_packet rtable now protocol p nat).1
unfolding nat_translate_packet
nat_translate_packet-IsExact rtable now protocol p nat x = go (get_packet_direction rtable nat p)
  where
    tcp_only :
        (b : Bool) (dir : Direction)
        → IsExact (if b then (dropped, nat) else do_translation now p dir nat).1
    tcp_only true dir = x
    tcp_only false dir = do_translation-IsExact now p dir nat x

    go :
        (d : Option Direction)
        → IsExact
            (elim d as (λ _. Verdict × NatTable) [
              | none ↦ (crashed, nat)
              | some dir_invalid ↦ (unreachable, nat)
              | some dir ↦
                  if not (protocol == 6) then (dropped, nat) else do_translation now p dir nat
            ]).1
    go none = x
    go (some dir_invalid) = x
    go (some dir_in) = tcp_only (not (protocol == 6)) dir_in
    go (some dir_out) = tcp_only (not (protocol == 6)) dir_out

-- What happens to the table: a packet, or a turn of the sweep.
pub data NatSteps (a : NatTable) : NatTable → Type 0 where
  begins : NatSteps a a
  translates :
      {b : NatTable}
      → NatSteps a b
      → (rtable : List RtEntry) (now protocol : ℕ) (p : Packet)
      → NatSteps a (nat_translate_packet rtable now protocol p b).1
  times_out : {b : NatTable} → NatSteps a b → (now : ℕ) → NatSteps a (nat_timeout now b)

NatSteps-IsExact : {a b : NatTable} → NatSteps a b → IsExact a → IsExact b
NatSteps-IsExact begins x = x
NatSteps-IsExact (translates {b} before rtable now protocol p) x =
    nat_translate_packet-IsExact rtable now protocol p b (NatSteps-IsExact before x)
NatSteps-IsExact (times_out {b} before now) x =
    nat_timeout-IsExact now b (NatSteps-IsExact before x)

-- Whatever packets and sweeps come after nat_init, in whatever order, a port of the range is marked
-- exactly if a mapping uses it, and no two mappings of the whole table use the same one. The rules
-- for incoming connections name no port of the range.
pub nat_init-IsExact :
    (internal external ip : ℕ) (rules : List DnatRule) {nat : NatTable}
    → AllOutside rules
    → NatSteps (nat_init internal external ip rules) nat
    → IsExact nat
unfolding nat_init
nat_init-IsExact internal external ip rules h steps = NatSteps-IsExact steps (record {
  lists = length-replicate {A = List Mapping} 256 [];
  exact = λ p low high. uses_all-replicate p 256;
  outside = h;
})
