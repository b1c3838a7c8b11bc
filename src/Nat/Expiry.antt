-- ===== src/Nat/Expiry.antt =====
-- The sweep of nat_timeout and the loop of nat_exit of Lab10/12-nat/nat.c.
use ucas_computer_network_la.Prelude.{
  ℕ, zero, suc, ◌+◌, ◌%◌, ◌<◌, ◌≡◌, refl, ap, ap₂, inl, inr, Bool, true, false, not, ◌&&◌, ◌||◌,
  List, [], ◌∷◌, none, some, arith, ltb, ◌==◌, Bool-cases, keep_if, map, get_or, get_or-set_self,
  length,
}
use ucas_computer_network_la.Nat.{
  NatTable, Mapping, Packet, count_outbound, change_mapping, find_mapping, is_outbound, bucket_of,
  translate_out, with_port, with_list,
}
use ucas_computer_network_la.Nat.Upkeep.{
  is_over, sweep_list, sweep_lists, nat_timeout, nat_exit, nat_exit_from,
}

abbrev pub kept : ℕ → List Mapping → List Mapping
kept now ms = keep_if (λ m. not (is_over now m)) ms

-- Whether a mapping of the list is over and has the port `q`.
abbrev pub gives_back : ℕ → ℕ → List Mapping → Bool
gives_back now q [] = false
gives_back now q (m ∷ ms) = (is_over now m && q == m.external_port) || gives_back now q ms

abbrev pub any_gives_back : ℕ → ℕ → List (List Mapping) → Bool
any_gives_back now q [] = false
any_gives_back now q (ms ∷ rest) = gives_back now q ms || any_gives_back now q rest

sweep_list-kept :
    (now : ℕ) (ms : List Mapping) (assigned : ℕ → Bool)
    → (sweep_list now ms assigned).0 ≡ kept now ms
unfolding sweep_list
sweep_list-kept now [] assigned = refl
sweep_list-kept now (m ∷ ms) assigned = elim (Bool-cases (is_over now m)) [
  | inl over ↦ rw over (sweep_list-kept now ms (with_port m.external_port false assigned))
  | inr stays ↦ rw stays (ap (λ rest. m ∷ rest) (sweep_list-kept now ms assigned))
]

sweep_list-ports :
    (now q : ℕ) (ms : List Mapping) (assigned : ℕ → Bool)
    → (sweep_list now ms assigned).1 q ≡ (assigned q && not (gives_back now q ms))
unfolding sweep_list with_port
sweep_list-ports now q [] assigned = ground arith
sweep_list-ports now q (m ∷ ms) assigned = elim (Bool-cases (is_over now m)) [
  | inl over ↦ ground (arith, sweep_list-ports now q ms (with_port m.external_port false assigned))
  | inr stays ↦ ground (arith, sweep_list-ports now q ms assigned)
]

sweep_lists-kept :
    (now : ℕ) (lists : List (List Mapping)) (assigned : ℕ → Bool)
    → (sweep_lists now lists assigned).0 ≡ map (kept now) lists
unfolding sweep_lists
sweep_lists-kept now [] assigned = refl
sweep_lists-kept now (ms ∷ rest) assigned =
    ap₂ (λ x y. x ∷ y) (sweep_list-kept now ms assigned)
      (sweep_lists-kept now rest (sweep_list now ms assigned).1)

sweep_lists-ports :
    (now q : ℕ) (lists : List (List Mapping)) (assigned : ℕ → Bool)
    → (sweep_lists now lists assigned).1 q ≡ (assigned q && not (any_gives_back now q lists))
unfolding sweep_lists
sweep_lists-ports now q [] assigned = ground arith
sweep_lists-ports now q (ms ∷ rest) assigned = ground (
  arith,
  sweep_list-ports now q ms assigned,
  sweep_lists-ports now q rest (sweep_list now ms assigned).1,
)

-- A sweep keeps, list by list and in order, the mappings that are neither finished nor older than
-- 60 seconds, and it frees the ports of the others and no further port.
pub nat_timeout_lem :
    (now q : ℕ) (nat : NatTable)
    → ((nat_timeout now nat).nat_mapping_list ≡ map (kept now) nat.nat_mapping_list)
      × ((nat_timeout now nat).assigned_ports q
          ≡ (nat.assigned_ports q && not (any_gives_back now q nat.nat_mapping_list)))
unfolding nat_timeout
nat_timeout_lem now q nat = (
  sweep_lists-kept now nat.nat_mapping_list nat.assigned_ports,
  sweep_lists-ports now q nat.nat_mapping_list nat.assigned_ports,
)

nat_exit_from-none : (fuel i : ℕ) (nat : NatTable) → i < 256 → nat_exit_from fuel i nat ≡ none
unfolding nat_exit_from
nat_exit_from-none zero i nat h = refl
nat_exit_from-none (suc fuel) i nat h =
    let below : ltb i 256 ≡ true = ground arith in
    rw below (nat_exit_from-none fuel ((i + 1) % 256) (with_list i [] nat) (omega arith))

-- However many turns the loop of nat_exit makes, it does not come to its end: its counter is an
-- unsigned byte, which is always below 256.
pub nat_exit-none : (fuel : ℕ) (nat : NatTable) → nat_exit fuel nat ≡ none
unfolding nat_exit
nat_exit-none fuel nat = nat_exit_from-none fuel 0 nat (omega arith)

-- The port and the age of each mapping of a list.
abbrev pub ages : List Mapping → List (ℕ × ℕ)
ages ms = map (λ m. (m.external_port, m.update_time)) ms

change_mapping-ages :
    (test : Mapping → Bool) (p : Packet) (ms : List Mapping)
    → ages (change_mapping test (count_outbound p) ms) ≡ ages ms
unfolding change_mapping count_outbound
change_mapping-ages test p [] = refl
change_mapping-ages test p (m ∷ ms) = elim (Bool-cases (test m)) [
  | inl hit ↦ rw hit refl
  | inr miss ↦
      rw miss (ap (λ rest. (m.external_port, m.update_time) ∷ rest) (change_mapping-ages test p ms))
]

-- A packet from inside whose flow has a mapping leaves the age of each mapping of the list as it
-- was: the flow is not kept alive by the packets that it carries. The table has the list.
pub translate_out-keeps_ages :
    (now : ℕ) (p : Packet) (nat : NatTable) (m : Mapping)
    → bucket_of p.daddr p.dport < length nat.nat_mapping_list
    → find_mapping (is_outbound p) (get_or nat.nat_mapping_list (bucket_of p.daddr p.dport) [])
      ≡ some m
    → ages (get_or (translate_out now p nat).1.nat_mapping_list (bucket_of p.daddr p.dport) [])
      ≡ ages (get_or nat.nat_mapping_list (bucket_of p.daddr p.dport) [])
unfolding translate_out with_list
translate_out-keeps_ages now p nat m inside e =
    let ms = get_or nat.nat_mapping_list (bucket_of p.daddr p.dport) [] in
    rw
      (
        e,
        translate_out,
        get_or-set_self nat.nat_mapping_list (bucket_of p.daddr p.dport)
            (change_mapping (is_outbound p) (count_outbound p) ms) [] inside,
      )
      (change_mapping-ages (is_outbound p) p ms)
