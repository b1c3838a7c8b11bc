-- ===== src/Nat/Exact.antt =====
-- The operations of Lab10/12-nat/nat.c keep the marks of the ports true to the mappings.
use ucas_computer_network_la.Prelude.{
  ℕ, ◌+◌, ◌≤◌, ◌<◌, ◌≡◌, refl, sym, subst, ap, ◌∙◌, ◌⊎◌, inl, inr, false, ◌&&◌, List, [], ◌∷◌, ◌++◌,
  some, arith, ◌==◌, Bool-cases, Option-cases, get_or, set, length, length-set,
}
use ucas_computer_network_la.Hash.{hash8-lt}
use ucas_computer_network_la.Nat.{
  NatTable, Mapping, Packet, DnatRule, nat_port_min, nat_port_max, alloc_port, find_mapping,
  is_inbound, is_outbound, find_rule, count_inbound, count_outbound, mapping_of_rule, new_mapping,
  change_mapping, with_list, bucket_of, translate_in, translate_out,
}
use ucas_computer_network_la.Nat.Ports.{alloc_port-Allocated}
use ucas_computer_network_la.Nat.Counts.{
  uses, uses_all, bit, uses-append, uses-change_mapping, uses_all-set,
}

-- No rule has a port of the range from which ports are allocated.
abbrev pub AllOutside : List DnatRule → Type 0
AllOutside [] = Unit {0}
AllOutside (r ∷ rs) =
    ((r.external_port < nat_port_min) ⊎ (nat_port_max ≤ r.external_port)) × AllOutside rs

-- Each port of the range is used by one mapping if it is marked as assigned, and by none if not.
pub record IsExact (nat : NatTable) : Type 0 where
  pub lists : length nat.nat_mapping_list ≡ 256
  pub exact :
      (p : ℕ)
      → nat_port_min ≤ p
      → p < nat_port_max
      → uses_all p nat.nat_mapping_list ≡ bit (nat.assigned_ports p)
  pub outside : AllOutside nat.rules

bucket_of-lt : (ip port : ℕ) → bucket_of ip port < 256
unfolding bucket_of
bucket_of-lt ip port = hash8-lt _

-- A list that is put back with as many uses of a port more as its mark has changed.
with_list-exact :
    (nat nat' : NatTable) (i p : ℕ) (ms : List Mapping)
    → i < length nat.nat_mapping_list
    → nat'.nat_mapping_list ≡ nat.nat_mapping_list
    → uses_all p nat.nat_mapping_list ≡ bit (nat.assigned_ports p)
    → uses p ms + bit (nat.assigned_ports p)
      ≡ uses p (get_or nat.nat_mapping_list i []) + bit (nat'.assigned_ports p)
    → uses_all p (with_list i ms nat').nat_mapping_list ≡ bit (nat'.assigned_ports p)
unfolding with_list
with_list-exact nat nat' i p ms h same e k =
    subst (λ l. uses_all p (set l i ms) ≡ bit (nat'.assigned_ports p)) (sym same)
      (omega (arith, uses_all-set p i nat.nat_mapping_list ms h, e, k))

with_list-IsExact :
    (nat nat' : NatTable) (i : ℕ) (ms : List Mapping)
    → IsExact nat
    → i < 256
    → nat'.nat_mapping_list ≡ nat.nat_mapping_list
    → nat'.rules ≡ nat.rules
    → ((p : ℕ)
        → nat_port_min ≤ p
        → p < nat_port_max
        → uses p ms + bit (nat.assigned_ports p)
          ≡ uses p (get_or nat.nat_mapping_list i []) + bit (nat'.assigned_ports p))
    → IsExact (with_list i ms nat')
unfolding with_list
with_list-IsExact nat nat' i ms x h same rules k = record {
  lists = length-set nat'.nat_mapping_list i ms ∙ ap length same ∙ x.lists;
  exact = λ p low high.
      with_list-exact nat nat' i p ms (omega (arith, h, x.lists)) same (x.exact p low high)
        (k p low high);
  outside = subst AllOutside (sym rules) x.outside;
}

find_rule-outside :
    (p : Packet) (rs : List DnatRule) (r : DnatRule)
    → AllOutside rs
    → find_rule p rs ≡ some r
    → (r.external_port < nat_port_min) ⊎ (nat_port_max ≤ r.external_port)
unfolding find_rule
find_rule-outside p [] r h e = cc
find_rule-outside p (x ∷ xs) r h e =
    elim (Bool-cases (p.daddr == x.external_ip && p.dport == x.external_port)) [
      | inl hit ↦
          let same : x ≡ r = ground arith in
          subst (λ y. (y.external_port < nat_port_min) ⊎ (nat_port_max ≤ y.external_port)) same h.0
      | inr miss ↦ find_rule-outside p xs r h.1 (ground arith)
    ]

pub translate_in-IsExact :
    (now : ℕ) (p : Packet) (nat : NatTable) → IsExact nat → IsExact (translate_in now p nat).1
unfolding translate_in mapping_of_rule count_inbound
translate_in-IsExact now p nat x =
    let i = bucket_of p.saddr p.sport in
    let ms = get_or nat.nat_mapping_list i [] in
    elim (Option-cases (find_mapping (is_inbound p) ms)) [
      | inr (m, e) ↦
          rw (e, translate_in)
            (with_list-IsExact nat nat i (change_mapping (is_inbound p) (count_inbound p) ms) x
              (bucket_of-lt p.saddr p.sport) refl refl
              (λ q low high.
                ap (λ n. n + bit (nat.assigned_ports q))
                  (uses-change_mapping q (is_inbound p) (count_inbound p) ms (λ m. refl))))
      | inl e ↦
          rw (e, translate_in)
            (elim (Option-cases (find_rule p nat.rules)) [
              | inl f ↦ rw f x
              | inr (r, f) ↦ rw f (
                  with_list-IsExact nat nat i (ms ++ count_inbound p (mapping_of_rule now p r) ∷ [])
                    x (bucket_of-lt p.saddr p.sport) refl refl
                    (λ q low high.
                      let apart = find_rule-outside p nat.rules r x.outside f in
                      let other : (r.external_port == q) ≡ false =
                        ground (arith, apart, low, high) in
                      let none_more : uses q (count_inbound p (mapping_of_rule now p r) ∷ []) ≡ 0 =
                        rw other refl in
                      omega (
                        arith,
                        uses-append q ms (count_inbound p (mapping_of_rule now p r) ∷ []),
                        none_more,
                      )))
            ])
    ]

uses-one : (q : ℕ) (m : Mapping) → uses q (m ∷ []) ≡ bit (m.external_port == q)
uses-one q m = ground arith

alloc_port-keeps :
    (nat : NatTable)
    → let nat' = (alloc_port nat).1 in
      (nat'.nat_mapping_list ≡ nat.nat_mapping_list) × (nat'.rules ≡ nat.rules)
unfolding alloc_port
alloc_port-keeps nat = (ground arith, ground arith)

-- A port of the range is newly marked exactly if it was allocated.
alloc_port-marks :
    (nat : NatTable) (q : ℕ)
    → nat_port_min ≤ q
    → q < nat_port_max
    → let (port, nat') = alloc_port nat in
      bit (nat'.assigned_ports q) ≡ bit (nat.assigned_ports q) + bit (port == q)
alloc_port-marks nat q low high = elim (alloc_port-Allocated nat) [
  | inl (zero_port, all, same) ↦
      let other : ((alloc_port nat).0 == q) ≡ false = ground (arith, zero_port, low) in
      rw (other, same) (omega arith)
  | inr (from, below, free, before, marks) ↦
      rw (marks q) (elim (Bool-cases (q == (alloc_port nat).0)) [
        | inl at ↦
            let it : (alloc_port nat).0 ≡ q = ground arith in
            let was : nat.assigned_ports q ≡ false =
              subst (λ k. nat.assigned_ports k ≡ false) it free in
            ground (arith, at, was)
        | inr off ↦ ground (arith, off)
      ])
]

pub translate_out-IsExact :
    (now : ℕ) (p : Packet) (nat : NatTable) → IsExact nat → IsExact (translate_out now p nat).1
unfolding translate_out new_mapping count_outbound
translate_out-IsExact now p nat x =
    let i = bucket_of p.daddr p.dport in
    let ms = get_or nat.nat_mapping_list i [] in
    elim (Option-cases (find_mapping (is_outbound p) ms)) [
      | inr (m, e) ↦
          rw (e, translate_out)
            (with_list-IsExact nat nat i (change_mapping (is_outbound p) (count_outbound p) ms) x
              (bucket_of-lt p.daddr p.dport) refl refl
              (λ q low high.
                ap (λ n. n + bit (nat.assigned_ports q))
                  (uses-change_mapping q (is_outbound p) (count_outbound p) ms (λ m. refl))))
      | inl e ↦
          let (port, nat') = alloc_port nat in
          let m = count_outbound p (new_mapping now p nat.external_iface_ip port) in
          rw (e, translate_out)
            (with_list-IsExact nat nat' i (ms ++ m ∷ []) x (bucket_of-lt p.daddr p.dport)
              (alloc_port-keeps nat).0 (alloc_port-keeps nat).1
              (λ q low high.
                omega (
                  arith,
                  uses-append q ms (m ∷ []),
                  alloc_port-marks nat q low high,
                  uses-one q m,
                )))
    ]
