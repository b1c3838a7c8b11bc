-- ===== src/Nat/Ports.antt =====
-- The allocation of ports by alloc_port of Lab10/12-nat/nat.c.
use ucas_computer_network_la.Prelude.{
  ℕ, zero, suc, ◌+◌, ◌≤◌, ◌<◌, ◌≡◌, refl, ◌⊎◌, inl, inr, Bool, true, false, arith, ◌==◌,
  if◌then◌else◌, Bool-cases,
}
use ucas_computer_network_la.Nat.{
  NatTable, nat_port_min, nat_port_max, first_free, with_port, alloc_port,
}

-- `p` is the first free port of `n` from `i` on, or 0 where none is free.
abbrev FirstFree : ℕ → ℕ → (ℕ → Bool) → ℕ → Type 0
FirstFree n i assigned p =
    ((p ≡ 0) × ((q : ℕ) → i ≤ q → q < i + n → assigned q ≡ true))
    ⊎ ((i ≤ p) × (p < i + n) × (assigned p ≡ false) × ((q : ℕ) → i ≤ q → q < p → assigned q ≡ true))

at_or_after : (i q : ℕ) → i ≤ q → (q ≡ i) ⊎ (suc i ≤ q)
at_or_after i q h = ground arith

first_free-FirstFree :
    (n i : ℕ) (assigned : ℕ → Bool) → FirstFree n i assigned (first_free n i assigned)
unfolding first_free
first_free-FirstFree zero i assigned = inl (refl, λ q h l. ground arith)
first_free-FirstFree (suc n) i assigned = elim (Bool-cases (assigned i)) [
  | inl taken ↦ rw taken (elim (first_free-FirstFree n (suc i) assigned) [
    | inl (e, all) ↦ inl (
      e,
      λ q h l. elim (at_or_after i q h) [ inl same ↦ cc | inr after ↦ all q after (omega arith) ],
    )
    | inr (low, high, free, before) ↦ inr (
      omega arith,
      omega arith,
      free,
      λ q h l. elim (at_or_after i q h) [ inl same ↦ cc | inr after ↦ before q after l ],
    )
  ])
  | inr free ↦ rw free (inr (omega arith, omega arith, free, λ q h l. ground arith))
]

-- What an allocation should give.
abbrev pub Allocated : NatTable → ℕ → NatTable → Type 0
Allocated nat p nat' =
    ((p ≡ 0)
      × ((q : ℕ) → nat_port_min ≤ q → q < nat_port_max → nat.assigned_ports q ≡ true)
      × (nat' ≡ nat))
    ⊎ ((nat_port_min ≤ p)
        × (p < nat_port_max)
        × (nat.assigned_ports p ≡ false)
        × ((q : ℕ) → nat_port_min ≤ q → q < p → nat.assigned_ports q ≡ true)
        × ((q : ℕ) → nat'.assigned_ports q ≡ (if q == p then true else nat.assigned_ports q)))

-- An allocation gives the lowest free port of the range and marks this port only, or gives 0 and
-- changes nothing, exactly where every port of the range is assigned.
pub alloc_port-Allocated : (nat : NatTable) → let (p, nat') = alloc_port nat in Allocated nat p nat'
unfolding alloc_port with_port
alloc_port-Allocated nat = elim (first_free-FirstFree 11111 12345 nat.assigned_ports) [
  | inl (e, all) ↦ rw e (inl (refl, all, refl))
  | inr (low, high, free, before) ↦
      let some_port : (first_free 11111 12345 nat.assigned_ports == 0) ≡ false = ground arith in
      rw some_port (inr (low, high, free, before, λ q. refl))
]
