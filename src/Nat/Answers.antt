-- ===== src/Nat/Answers.antt =====
-- What the far end sends to a translated source, in Lab10/12-nat/nat.c.
use ucas_computer_network_la.Prelude.{
  ℕ, ◌<◌, ◌≡◌, ◌≢◌, refl, ap, ◌∙◌, inl, inr, List, [], ◌∷◌, Option, none, some, arith, Option-cases,
  get_or, length,
}
use ucas_computer_network_la.Nat.{
  NatTable, Mapping, Packet, DnatRule, find_mapping, is_inbound, is_outbound, find_rule,
  mapping_of_rule, translate_in, translate_out, to_internal, to_external, bucket_of, alloc_port,
}
use ucas_computer_network_la.Nat.Reply.{
  PortsAssigned, PortsDiffer, reply, translate_in-translate_out,
}

translate_out-keeps_remote :
    (now : ℕ) (p : Packet) (nat : NatTable)
    → ((translate_out now p nat).0.daddr ≡ p.daddr) × ((translate_out now p nat).0.dport ≡ p.dport)
unfolding translate_out to_external
translate_out-keeps_remote now p nat =
    elim (Option-cases
      (find_mapping (is_outbound p) (get_or nat.nat_mapping_list (bucket_of p.daddr p.dport) []))) [
        | inl e ↦ rw (e, translate_out) (refl, refl)
        | inr (m, e) ↦ rw (e, translate_out) (refl, refl)
      ]

-- The translation from outside looks at the addresses and ports only.
abbrev pub numbered : (seq ack flags : ℕ) → Packet → Packet
numbered seq ack flags p = record p { seq = seq; ack = ack; flags = flags }

find_mapping-numbered :
    (seq ack flags : ℕ) (r : Packet) (ms : List Mapping)
    → find_mapping (is_inbound (numbered seq ack flags r)) ms ≡ find_mapping (is_inbound r) ms
unfolding find_mapping is_inbound
find_mapping-numbered seq ack flags r [] = refl
find_mapping-numbered seq ack flags r (m ∷ ms) =
    ground (arith, find_mapping-numbered seq ack flags r ms)

find_rule-numbered :
    (seq ack flags : ℕ) (r : Packet) (rules : List DnatRule)
    → find_rule (numbered seq ack flags r) rules ≡ find_rule r rules
unfolding find_rule
find_rule-numbered seq ack flags r [] = refl
find_rule-numbered seq ack flags r (x ∷ xs) = ground (arith, find_rule-numbered seq ack flags r xs)

-- The packet with the destination of another.
abbrev readdressed : Packet → Option Packet → Option Packet
readdressed p none = none
readdressed p (some x) = some (record p { daddr = x.daddr; dport = x.dport })

translate_in-numbered :
    (now seq ack flags : ℕ) (r : Packet) (nat : NatTable)
    → (translate_in now (numbered seq ack flags r) nat).0
      ≡ readdressed (numbered seq ack flags r) (translate_in now r nat).0
unfolding translate_in to_internal mapping_of_rule
translate_in-numbered now seq ack flags r nat =
    let ms = get_or nat.nat_mapping_list (bucket_of r.saddr r.sport) [] in
    let same = find_mapping-numbered seq ack flags r ms in
    elim (Option-cases (find_mapping (is_inbound r) ms)) [
      | inr (m, e) ↦ rw (same, e, translate_in) refl
      | inl e ↦
          rw (same, e, find_rule-numbered seq ack flags r nat.rules, translate_in)
            (elim (Option-cases (find_rule r nat.rules)) [
              | inl f ↦ rw f refl
              | inr (x, f) ↦ rw f refl
            ])
    ]

-- Whatever the far end sends to the translated source reaches the sender of the packet: a packet from
-- the packet's destination to the source that the translation gave it is let in, to the address and
-- the port of the sender and with its own numbers and flags.
pub translate_in-answers :
    (now later seq ack flags : ℕ) (p : Packet) (nat : NatTable)
    → bucket_of p.daddr p.dport < length nat.nat_mapping_list
    → PortsAssigned nat (get_or nat.nat_mapping_list (bucket_of p.daddr p.dport) [])
    → PortsDiffer (get_or nat.nat_mapping_list (bucket_of p.daddr p.dport) [])
    → (alloc_port nat).0 ≢ 0
    → (translate_in later
        (numbered seq ack flags (reply (translate_out now p nat).0))
        (translate_out now p nat).1).0
      ≡ some (numbered seq ack flags (reply p))
translate_in-answers now later seq ack flags p nat a b c d =
    let k = translate_out-keeps_remote now p nat in
    let r = reply (translate_out now p nat).0 in
    (translate_in-numbered later seq ack flags r (translate_out now p nat).1
      ∙ ap (readdressed (numbered seq ack flags r))
          (translate_in-translate_out now later p nat a b c d))
    ∙ rw (k.0, k.1) refl
