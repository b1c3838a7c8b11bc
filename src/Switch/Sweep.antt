-- ===== src/Switch/Sweep.antt =====
-- The sweep of Lab4/05-switching/mac.c: what it removes, and what it misses.
use ucas_computer_network_la.Prelude.{
  ℕ, ◌+◌, ◌<◌, ◌≡◌, refl, Bool, not, List, [], ◌∷◌, ◌++◌, arith, length, length-append, keep_if,
}
use ucas_computer_network_la.Switch.{
  Entry, Table, is_aged, sweep_list, count_aged, sweep_aged_mac_port_entry,
}

-- All entries of the table, list by list.
abbrev pub entries : Table → List Entry
entries [] = []
entries (b ∷ bs) = b ++ entries bs

keep_if-append :
    (p : Entry → Bool) (xs ys : List Entry) → keep_if p (xs ++ ys) ≡ keep_if p xs ++ keep_if p ys
keep_if-append p [] ys = refl
keep_if-append p (x ∷ xs) ys = ground (arith, keep_if-append p xs ys)

-- A sweep keeps exactly the entries that were not visited 30 seconds ago to the second, in their
-- order, and returns the number of the others.
pub sweep_aged_lem :
    (now : ℕ) (t : Table)
    → let (n, t') = sweep_aged_mac_port_entry now t in
      (entries t' ≡ keep_if (λ e. not (is_aged now e)) (entries t))
      × (n ≡ length (keep_if (is_aged now) (entries t)))
unfolding sweep_aged_mac_port_entry sweep_list count_aged
sweep_aged_lem now [] = (refl, refl)
sweep_aged_lem now (b ∷ bs) = (
  rw (keep_if-append (λ e. not (is_aged now e)) b (entries bs), (sweep_aged_lem now bs).0),
  rw (keep_if-append (is_aged now) b (entries bs), length-append, (sweep_aged_lem now bs).1),
)

-- Every entry of the list is more than 30 seconds old.
abbrev pub AllOverdue : ℕ → List Entry → Type 0
AllOverdue now [] = Unit {0}
AllOverdue now (e ∷ es) = (e.visited + 30 < now) × AllOverdue now es

abbrev pub Overdue : ℕ → Table → Type 0
Overdue now [] = Unit {0}
Overdue now (b ∷ bs) = AllOverdue now b × Overdue now bs

sweep_list-AllOverdue :
    (now : ℕ) (es : List Entry)
    → AllOverdue now es
    → (sweep_list now es ≡ es) × (count_aged now es ≡ 0)
unfolding sweep_list count_aged is_aged
sweep_list-AllOverdue now [] h = (refl, refl)
sweep_list-AllOverdue now (e ∷ es) h = ground (arith, sweep_list-AllOverdue now es h.1)

-- Entries that are already older than 30 seconds are never removed: a sweep of a table of such
-- entries changes nothing and reports none.
pub sweep_misses-Overdue :
    (now : ℕ) (t : Table) → Overdue now t → sweep_aged_mac_port_entry now t ≡ (0, t)
unfolding sweep_aged_mac_port_entry
sweep_misses-Overdue now [] h = refl
sweep_misses-Overdue now (b ∷ bs) h =
    ground (arith, sweep_list-AllOverdue now b h.0, sweep_misses-Overdue now bs h.1)
