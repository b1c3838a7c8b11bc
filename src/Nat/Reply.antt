-- ===== src/Nat/Reply.antt =====
-- The translations of do_translation of Lab10/12-nat/nat.c against each other.
use ucas_computer_network_la.Prelude.{
  ℕ, ◌<◌, ◌≡◌, ◌≢◌, refl, subst, ap, ◌∙◌, ◌↔◌, inl, inr, Bool, true, false, List, [], ◌∷◌, ◌++◌,
  none, some, arith, ◌==◌, Bool-cases, Option-cases, ==_iff, get_or, length, get_or-set_self,
}
use ucas_computer_network_la.Nat.Ports.{alloc_port-Allocated}
use ucas_computer_network_la.Nat.{
  NatTable, Mapping, Packet, find_mapping, change_mapping, is_inbound, is_outbound, find_rule,
  count_outbound, new_mapping, translate_in, translate_out, to_internal, to_external, bucket_of,
  with_list, alloc_port, first_free,
}

-- A packet from outside is dropped exactly where no mapping of its list and no rule has its
-- destination, and then the table is left alone.
pub translate_in-drops :
    (now : ℕ) (p : Packet) (nat : NatTable)
    → ((translate_in now p nat).0 ≡ none) ↔ (
        (find_mapping (is_inbound p) (get_or nat.nat_mapping_list (bucket_of p.saddr p.sport) [])
          ≡ none)
        × (find_rule p nat.rules ≡ none)
        × ((translate_in now p nat).1 ≡ nat))
unfolding translate_in
translate_in-drops now p nat =
    elim (Option-cases
      (find_mapping (is_inbound p) (get_or nat.nat_mapping_list (bucket_of p.saddr p.sport) []))) [
        | inr (m, e) ↦ rw (e, translate_in) (λ h. cc, λ h. cc)
        | inl e ↦
            rw (e, translate_in)
              (elim (Option-cases (find_rule p nat.rules)) [
                | inl none_too ↦ rw none_too (λ h. (refl, refl, refl), λ h. refl)
                | inr (r, rule) ↦ rw rule (λ h. cc, λ h. cc)
              ])
      ]

-- The port of each mapping is assigned, and no two mappings share one.
abbrev pub NotOf : ℕ → List Mapping → Type 0
NotOf port [] = Unit {0}
NotOf port (m ∷ ms) = (m.external_port ≢ port) × NotOf port ms

abbrev pub PortsAssigned : NatTable → List Mapping → Type 0
PortsAssigned nat [] = Unit {0}
PortsAssigned nat (m ∷ ms) = (nat.assigned_ports m.external_port ≡ true) × PortsAssigned nat ms

abbrev pub PortsDiffer : List Mapping → Type 0
PortsDiffer [] = Unit {0}
PortsDiffer (m ∷ ms) = NotOf m.external_port ms × PortsDiffer ms

-- The answer that a packet gets from the far end.
abbrev pub reply : Packet → Packet
reply p = record p { saddr = p.daddr; daddr = p.saddr; sport = p.dport; dport = p.sport }

find_mapping-holds :
    (test : Mapping → Bool) (ms : List Mapping) (m : Mapping)
    → find_mapping test ms ≡ some m
    → test m ≡ true
unfolding find_mapping
find_mapping-holds test [] m h = cc
find_mapping-holds test (x ∷ xs) m h = elim (Bool-cases (test x)) [
  | inl hit ↦ let same : x ≡ m = ground arith in cc
  | inr miss ↦ find_mapping-holds test xs m (ground arith)
]

find_mapping-NotOf :
    (test : Mapping → Bool) (port : ℕ) (ms : List Mapping) (m : Mapping)
    → NotOf port ms
    → find_mapping test ms ≡ some m
    → m.external_port ≢ port
unfolding find_mapping
find_mapping-NotOf test port [] m h e = cc
find_mapping-NotOf test port (x ∷ xs) m h e = elim (Bool-cases (test x)) [
  | inl hit ↦ let same : x ≡ m = ground arith in subst (λ y. y.external_port ≢ port) same h.0
  | inr miss ↦ find_mapping-NotOf test port xs m h.1 (ground arith)
]

-- Where ports differ, the reply to a mapping found from inside finds the same mapping from outside.
find_mapping-changed :
    (p r : Packet) (ms : List Mapping) (m : Mapping)
    → PortsDiffer ms
    → r.daddr ≡ m.external_ip
    → r.dport ≡ m.external_port
    → find_mapping (is_outbound p) ms ≡ some m
    → find_mapping (is_inbound r) (change_mapping (is_outbound p) (count_outbound p) ms)
      ≡ some (count_outbound p m)
unfolding find_mapping change_mapping is_inbound count_outbound
find_mapping-changed p r [] m d ip port h = cc
find_mapping-changed p r (x ∷ xs) m d ip port h = elim (Bool-cases (is_outbound p x)) [
  | inl hit ↦ let same : x ≡ m = ground arith in rw (hit, same) (ground arith)
  | inr miss ↦
      let other : m.external_port ≢ x.external_port =
        find_mapping-NotOf (is_outbound p) x.external_port xs m d.0 (ground arith) in
      ground (arith, find_mapping-changed p r xs m d.1 ip port)
]

find_mapping-appended :
    (r : Packet) (nat : NatTable) (ms : List Mapping) (m : Mapping)
    → PortsAssigned nat ms
    → nat.assigned_ports m.external_port ≡ false
    → r.daddr ≡ m.external_ip
    → r.dport ≡ m.external_port
    → find_mapping (is_inbound r) (ms ++ m ∷ []) ≡ some m
unfolding find_mapping is_inbound
find_mapping-appended r nat [] m h free ip port =
    ground (arith, ==_iff r.daddr m.external_ip, ==_iff r.dport m.external_port)
find_mapping-appended r nat (x ∷ xs) m h free ip port =
    let other : x.external_port ≢ r.dport = λ same. cc in
    ground (arith, find_mapping-appended r nat xs m h.1 free ip port)

translate_in-finds :
    (now : ℕ) (r : Packet) (nat : NatTable) (ms : List Mapping) (m : Mapping)
    → bucket_of r.saddr r.sport < length nat.nat_mapping_list
    → find_mapping (is_inbound r) ms ≡ some m
    → (translate_in now r (with_list (bucket_of r.saddr r.sport) ms nat)).0 ≡ some (to_internal r m)
unfolding translate_in with_list
translate_in-finds now r nat ms m inside e =
    rw
      (
        get_or-set_self nat.nat_mapping_list (bucket_of r.saddr r.sport) ms [] inside,
        e,
        translate_in,
      )
      refl

-- The reply is handed to the sender by any mapping with the sender's address.
back_to_sender :
    (p : Packet) (m n : Mapping)
    → is_outbound p m ≡ true
    → to_internal (reply (to_external p n)) m ≡ reply p
unfolding is_outbound to_internal to_external
back_to_sender p m n h =
    let ip : m.internal_ip ≡ p.saddr = ground arith in
    let port : m.internal_port ≡ p.sport = ground arith in rw (ip, port) refl

alloc_port-keeps : (nat : NatTable) → (alloc_port nat).1.nat_mapping_list ≡ nat.nat_mapping_list
unfolding alloc_port
alloc_port-keeps nat = elim (Bool-cases (first_free 11111 12345 nat.assigned_ports == 0)) [
  | inl e ↦ rw e refl
  | inr e ↦ rw e refl
]

alloc_port-free :
    (nat : NatTable) → (alloc_port nat).0 ≢ 0 → nat.assigned_ports (alloc_port nat).0 ≡ false
alloc_port-free nat h = elim (alloc_port-Allocated nat) [
  | inl full ↦ absurd (h full.0)
  | inr found ↦ found.2
]

-- A packet that goes out is answered: the reply from the far end to the translated source is let in
-- and reaches the sender, whether the mapping was there or is new. The table has the list of the
-- flow, the mappings of this list hold assigned ports, each its own, and some port is free.
pub translate_in-translate_out :
    (now later : ℕ) (p : Packet) (nat : NatTable)
    → bucket_of p.daddr p.dport < length nat.nat_mapping_list
    → PortsAssigned nat (get_or nat.nat_mapping_list (bucket_of p.daddr p.dport) [])
    → PortsDiffer (get_or nat.nat_mapping_list (bucket_of p.daddr p.dport) [])
    → (alloc_port nat).0 ≢ 0
    → (translate_in later (reply (translate_out now p nat).0) (translate_out now p nat).1).0
      ≡ some (reply p)
unfolding translate_out translate_in to_internal to_external new_mapping with_list count_outbound
translate_in-translate_out now later p nat inside assigned differ free =
    elim (Option-cases (find_mapping (is_outbound p) ms)) [
      | inr (m, e) ↦
          rw (e, translate_out)
            (translate_in-finds later (reply (to_external p m)) nat
                (change_mapping (is_outbound p) (count_outbound p) ms) (count_outbound p m) inside
                (find_mapping-changed p (reply (to_external p m)) ms m differ refl refl e)
              ∙ ap some (back_to_sender p m m (find_mapping-holds (is_outbound p) ms m e)))
      | inl e ↦
          rw (e, translate_out)
            (translate_in-finds later (reply (to_external p fresh)) (alloc_port nat).1
                (ms ++ count_outbound p fresh ∷ []) (count_outbound p fresh)
                (rw (alloc_port-keeps nat) inside)
                (find_mapping-appended (reply (to_external p fresh)) nat ms (count_outbound p fresh)
                  assigned (alloc_port-free nat free) refl refl)
              ∙ refl)
    ]
  where
    ms : List Mapping
    ms = get_or nat.nat_mapping_list (bucket_of p.daddr p.dport) []

    fresh : Mapping
    fresh = new_mapping now p nat.external_iface_ip (alloc_port nat).0
