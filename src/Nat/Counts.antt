-- ===== src/Nat/Counts.antt =====
-- How many mappings of the table of Lab10/12-nat/nat.c use a port.
use ucas_computer_network_la.Prelude.{
  ℕ, zero, suc, ◌+◌, ◌<◌, ◌≡◌, refl, ap, inl, inr, Bool, false, List, [], ◌∷◌, ◌++◌, arith, ◌==◌,
  if◌then◌else◌, Bool-cases, get_or, set, length, replicate,
}
use ucas_computer_network_la.Nat.{Mapping, with_port, change_mapping}
use ucas_computer_network_la.Nat.Upkeep.{is_over, sweep_list, sweep_lists}

-- The mappings of a list, and of all lists, with the external port given.
abbrev pub uses : ℕ → List Mapping → ℕ
uses p [] = 0
uses p (m ∷ ms) = let rest = uses p ms in if m.external_port == p then suc rest else rest

abbrev pub uses_all : ℕ → List (List Mapping) → ℕ
uses_all p [] = 0
uses_all p (ms ∷ rest) = uses p ms + uses_all p rest

-- 1 for a port that is assigned.
abbrev pub bit : Bool → ℕ
bit b = if b then 1 else 0

pub uses-append : (p : ℕ) (ms ns : List Mapping) → uses p (ms ++ ns) ≡ uses p ms + uses p ns
uses-append p [] ns = omega arith
uses-append p (m ∷ ms) ns = ground (arith, uses-append p ms ns)

-- A change that keeps the port.
pub uses-change_mapping :
    (p : ℕ) (test : Mapping → Bool) (change : Mapping → Mapping) (ms : List Mapping)
    → ((m : Mapping) → (change m).external_port ≡ m.external_port)
    → uses p (change_mapping test change ms) ≡ uses p ms
unfolding change_mapping
uses-change_mapping p test change [] h = refl
uses-change_mapping p test change (m ∷ ms) h = elim (Bool-cases (test m)) [
  | inl hit ↦ rw (hit, h m) refl
  | inr miss ↦ rw (miss, uses-change_mapping p test change ms h) refl
]

pub uses_all-set :
    (p i : ℕ) (lists : List (List Mapping)) (ms : List Mapping)
    → i < length lists
    → uses_all p (set lists i ms) + uses p (get_or lists i []) ≡ uses_all p lists + uses p ms
uses_all-set p i [] ms h = absurd (omega (arith, h))
uses_all-set p zero (l ∷ ls) ms h = omega arith
uses_all-set p (suc i) (l ∷ ls) ms h = omega (arith, uses_all-set p i ls ms (omega (arith, h)))

pub uses_all-replicate : (p n : ℕ) → uses_all p (replicate n []) ≡ 0
uses_all-replicate p zero = refl
uses_all-replicate p (suc n) = omega (arith, uses_all-replicate p n)

-- The sweep of a list, where `others` more mappings use the port: the count stays that of the mark.
pub sweep_list-uses :
    (now p others : ℕ) (ms : List Mapping) (assigned : ℕ → Bool)
    → uses p ms + others ≡ bit (assigned p)
    → let (ms', assigned') = sweep_list now ms assigned in uses p ms' + others ≡ bit (assigned' p)
unfolding sweep_list with_port
sweep_list-uses now p others [] assigned h = h
sweep_list-uses now p others (m ∷ ms) assigned h = elim (Bool-cases (is_over now m)) [
  | inl over ↦ rw over (
      sweep_list-uses now p others ms (with_port m.external_port false assigned)
        (ground (arith, h)))
  | inr stays ↦ rw stays (elim (Bool-cases (m.external_port == p)) [
    | inl hit ↦
        rw hit
          (omega (arith, sweep_list-uses now p (suc others) ms assigned (ground (arith, h, hit))))
    | inr miss ↦ rw miss (sweep_list-uses now p others ms assigned (ground (arith, h, miss)))
  ])
]

pub sweep_lists-uses :
    (now p others : ℕ) (lists : List (List Mapping)) (assigned : ℕ → Bool)
    → uses_all p lists + others ≡ bit (assigned p)
    → let (lists', assigned') = sweep_lists now lists assigned in
      uses_all p lists' + others ≡ bit (assigned' p)
unfolding sweep_lists
sweep_lists-uses now p others [] assigned h = h
sweep_lists-uses now p others (ms ∷ rest) assigned h =
    let swept = sweep_list now ms assigned in
    let first = sweep_list-uses now p (uses_all p rest + others) ms assigned (omega (arith, h)) in
    omega
      (arith, sweep_lists-uses now p (uses p swept.0 + others) rest swept.1 (omega (arith, first)))

pub sweep_lists-length :
    (now : ℕ) (lists : List (List Mapping)) (assigned : ℕ → Bool)
    → length (sweep_lists now lists assigned).0 ≡ length lists
unfolding sweep_lists
sweep_lists-length now [] assigned = refl
sweep_lists-length now (ms ∷ rest) assigned =
    ap suc (sweep_lists-length now rest (sweep_list now ms assigned).1)
