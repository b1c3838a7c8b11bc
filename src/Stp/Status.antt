-- ===== src/Stp/Status.antt =====
-- The choice of the root port in update_stp_status of Lab5/06-stp/stp.c.
use Prim.Native.Nat.{◌^◌}
use ucas_computer_network_la.Prelude.{
  ℕ, suc, ◌%◌, ◌+◌, ◌-◌, ◌≤◌, ◌<◌, ◌≡◌, refl, ◌⊎◌, inl, inr, true, false, List, [], ◌∷◌, Option,
  none, some, arith, Bool-cases, Option-cases, ap, subst, ◌∙◌, length, get_or,
}
use ucas_computer_network_la.Stp.{
  Port, Stp, no_port, stp_port_is_designated, port_priority_cmp, choose, find_root,
  update_stp_status,
}
use ucas_computer_network_la.Stp.Priority.{
  port_priority_cmp_trans, port_priority_cmp_neg_trans, port_priority_cmp_irrefl, Precedes,
  port_priority_cmp-Precedes,
}

-- No port of the list that is not designated has a higher priority than `q`.
abbrev NoneBetter : ℕ → Port → List Port → Type 0
NoneBetter sw q [] = Unit {0}
NoneBetter sw q (p ∷ ps) =
    (stp_port_is_designated sw p ≡ false → port_priority_cmp q p ≡ false) × NoneBetter sw q ps

abbrev pub AllDesignated : ℕ → List Port → Type 0
AllDesignated sw [] = Unit {0}
AllDesignated sw (p ∷ ps) = (stp_port_is_designated sw p ≡ true) × AllDesignated sw ps

-- `q` is the port at index `k` of the list, counted from `i`, and is not designated.
abbrev pub StandsAt : ℕ → ℕ → List Port → ℕ → Port → Type 0
StandsAt sw i ps k q =
    (i ≤ k)
    × (k < i + length ps)
    × (get_or ps (k - i) no_port ≡ q)
    × (stp_port_is_designated sw q ≡ false)

abbrev NotBeaten : Port → Option (ℕ × Port) → Type 0
NotBeaten q none = Unit {0}
NotBeaten q (some (j, p)) = port_priority_cmp q p ≡ false

-- One turn of the loop: what wins against the new choice wins against the old one and the port.
choose-NotBeaten :
    (sw i : ℕ) (p q : Port) (cur : Option (ℕ × Port))
    → NotBeaten q (choose sw i p cur)
    → NotBeaten q cur × (stp_port_is_designated sw p ≡ false → port_priority_cmp q p ≡ false)
unfolding choose
choose-NotBeaten sw i p q none h = ground arith
choose-NotBeaten sw i p q (some (j, r)) h =
    ground (arith, port_priority_cmp_trans q r p, port_priority_cmp_neg_trans q r p)

find_root-NoneBetter :
    (sw i k : ℕ) (q : Port) (ps : List Port) (cur : Option (ℕ × Port))
    → find_root sw i ps cur ≡ some (k, q)
    → NotBeaten q cur × NoneBetter sw q ps
unfolding find_root
find_root-NoneBetter sw i k q [] none h = cc
find_root-NoneBetter sw i k q [] (some (j, r)) h = ground (arith, port_priority_cmp_irrefl q)
find_root-NoneBetter sw i k q (p ∷ ps) cur h =
    let rest = find_root-NoneBetter sw (suc i) k q ps (choose sw i p cur) h in
    let here = choose-NotBeaten sw i p q cur rest.0 in (here.0, (here.1, rest.1))

StandsAt-here :
    (sw i k : ℕ) (p q : Port) (ps : List Port)
    → k ≡ i
    → p ≡ q
    → stp_port_is_designated sw p ≡ false
    → StandsAt sw i (p ∷ ps) k q
StandsAt-here sw i k p q ps e same free = (
  omega arith,
  omega arith,
  ap (λ n. get_or (p ∷ ps) n no_port) {x = k - i} {y = 0} (omega arith) ∙ same,
  subst (λ r. stp_port_is_designated sw r ≡ false) same free,
)

choose-StandsAt :
    (sw i k : ℕ) (p q : Port) (ps : List Port) (cur : Option (ℕ × Port))
    → choose sw i p cur ≡ some (k, q)
    → (cur ≡ some (k, q)) ⊎ StandsAt sw i (p ∷ ps) k q
unfolding choose
choose-StandsAt sw i k p q ps none h =
    inr (StandsAt-here sw i k p q ps (ground arith) (ground arith) (ground arith))
choose-StandsAt sw i k p q ps (some (j, r)) h = elim (Bool-cases (stp_port_is_designated sw p)) [
  | inl d ↦ inl (ground arith)
  | inr free ↦ elim (Bool-cases (port_priority_cmp r p)) [
    | inl wins ↦ inr (StandsAt-here sw i k p q ps (ground arith) (ground arith) free)
    | inr loses ↦ inl (ground arith)
  ]
]

find_root-StandsAt :
    (sw i k : ℕ) (q : Port) (ps : List Port) (cur : Option (ℕ × Port))
    → find_root sw i ps cur ≡ some (k, q)
    → (cur ≡ some (k, q)) ⊎ StandsAt sw i ps k q
unfolding find_root
find_root-StandsAt sw i k q [] cur h = inl h
find_root-StandsAt sw i k q (p ∷ ps) cur h =
    elim (find_root-StandsAt sw (suc i) k q ps (choose sw i p cur) h) [
      | inl e ↦ choose-StandsAt sw i k p q ps cur e
      | inr (lo, hi, there, free) ↦ inr (
        omega arith,
        omega arith,
        ap (λ n. get_or (p ∷ ps) n no_port) {x = k - i} {y = suc (k - suc i)} (omega arith) ∙ there,
        free,
      )
    ]

choose-none :
    (sw i : ℕ) (p : Port) (cur : Option (ℕ × Port))
    → choose sw i p cur ≡ none
    → (cur ≡ none) × (stp_port_is_designated sw p ≡ true)
unfolding choose
choose-none sw i p none h = ground arith
choose-none sw i p (some (j, r)) h = ground arith

find_root-AllDesignated :
    (sw i : ℕ) (ps : List Port) (cur : Option (ℕ × Port))
    → find_root sw i ps cur ≡ none
    → (cur ≡ none) × AllDesignated sw ps
unfolding find_root
find_root-AllDesignated sw i [] cur h = (h, tt)
find_root-AllDesignated sw i (p ∷ ps) cur h =
    let rest = find_root-AllDesignated sw (suc i) ps (choose sw i p cur) h in
    let here = choose-none sw i p cur rest.0 in (here.0, (here.1, rest.1))

-- No port of the list that is not designated has an announcement that comes before that of `q`.
abbrev pub NoneBefore : ℕ → Port → List Port → Type 0
NoneBefore sw q [] = Unit {0}
NoneBefore sw q (p ∷ ps) =
    (stp_port_is_designated sw p ≡ false → Precedes p q → ⊥) × NoneBefore sw q ps

NoneBetter-NoneBefore :
    (sw : ℕ) (q : Port) (ps : List Port) → NoneBetter sw q ps → NoneBefore sw q ps
NoneBetter-NoneBefore sw q [] h = tt
NoneBetter-NoneBefore sw q (p ∷ ps) h =
    (λ free. port_priority_cmp-Precedes q p (h.0 free), NoneBetter-NoneBefore sw q ps h.1)

-- What the switch believes after `update_stp_status`, by its new root port.
abbrev pub Settled : Stp → Option ℕ → Type 0
Settled s none =
    AllDesignated s.switch_id s.ports × (s.designated_root ≡ s.switch_id) × (s.root_path_cost ≡ 0)
Settled s (some k) =
    let q = get_or s.ports k no_port in
    (k < length s.ports)
    × (stp_port_is_designated s.switch_id q ≡ false)
    × NoneBefore s.switch_id q s.ports
    × (s.designated_root ≡ q.designated_root)
    × (s.root_path_cost ≡ (q.designated_cost + q.path_cost) % 2 ^ 32)

-- The new root port is a port that is not designated, such that no other of these has an announcement
-- that comes before its own (by root, cost as a signed number, switch and port), and the switch takes
-- its root, at its cost and the cost of the port, added as words of 32 bits; if all ports are designated
-- there is none, and the switch is the root at cost 0.
pub update_stp_status-Settled :
    (s : Stp) → Settled (update_stp_status s) (update_stp_status s).root_port
unfolding update_stp_status
update_stp_status-Settled s = elim (Option-cases (find_root s.switch_id 0 s.ports none)) [
  | inl e ↦
      rw (e, update_stp_status)
        ((find_root-AllDesignated s.switch_id 0 s.ports none e).1, refl, refl)
  | inr ((k, q), e) ↦ elim (find_root-StandsAt s.switch_id 0 k q s.ports none e) [
    | inl never ↦ cc
    | inr (lo, hi, at, free) ↦
        let there : get_or s.ports k no_port ≡ q =
          ap (λ n. get_or s.ports n no_port) {x = k} {y = k - 0} (omega arith) ∙ at in
        rw (e, update_stp_status, there)
          (
            omega arith,
            free,
            NoneBetter-NoneBefore s.switch_id q s.ports
                (find_root-NoneBetter s.switch_id 0 k q s.ports none e).1,
            refl,
            refl,
          )
  ]
]
