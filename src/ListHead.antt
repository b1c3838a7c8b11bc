-- ===== src/ListHead.antt =====
-- The linked lists of Lab15/16-tcp_stack/include/list.h, which every table and queue of the labs is
-- made of. A node is its address, and the memory gives each address its two pointers.
pub mod Chains
pub mod Insert
pub mod Delete
pub mod Loop
pub mod Move
mod Tests
use ucas_computer_network_la.Prelude.{
  ℕ, zero, suc, Bool, true, false, List, [], ◌∷◌, Option, none, some, ◌==◌, if◌then◌else◌,
}

-- `struct list_head`.
pub record Node : Type 0 where
  pub next : ℕ
  pub prev : ℕ

abbrev pub Memory : Type 0
Memory = ℕ → Node

-- `a->next = v` and `a->prev = v`.
unfoldable pub set_next : ℕ → ℕ → Memory → Memory
set_next a v h x = if x == a then record (h x) { next = v } else h x

unfoldable pub set_prev : ℕ → ℕ → Memory → Memory
set_prev a v h x = if x == a then record (h x) { prev = v } else h x

pub list_empty : ℕ → Memory → Bool
list_empty list h = (h list).next == list

pub init_list_head : ℕ → Memory → Memory
init_list_head list h = set_next list list (set_prev list list h)

pub list_insert : (new prev next : ℕ) → Memory → Memory
list_insert new prev next h =
    set_prev new prev (set_next new next (set_next prev new (set_prev next new h)))

pub list_add_head : (new head : ℕ) → Memory → Memory
list_add_head new head h = list_insert new head (h head).next h

pub list_add_tail : (new head : ℕ) → Memory → Memory
list_add_tail new head h = list_insert new (h head).prev head h

-- Both pointers of the entry are read again for the second assignment.
pub list_delete_entry : ℕ → Memory → Memory
list_delete_entry entry h =
    let h' = set_prev (h entry).next (h entry).prev h in set_next (h' entry).prev (h' entry).next h'

-- list_for_each_entry: the nodes that the loop visits from `pos` on, in `fuel` turns; `none` where it
-- has not come back to the head.
pub visit : ℕ → (head pos : ℕ) → Memory → Option (List ℕ)
visit zero head pos h = if pos == head then some [] else none
visit (suc fuel) head pos h =
    let rest = visit fuel head (h pos).next h in
    if pos == head then some [] else (elim rest [ none ↦ none | some xs ↦ some (pos ∷ xs) ])

pub list_for_each_entry : ℕ → ℕ → Memory → Option (List ℕ)
list_for_each_entry fuel head h = visit fuel head (h head).next h

-- list_for_each_entry_safe with a body that deletes the entries of a test: `q` is read before.
pub delete_from : ℕ → (ℕ → Bool) → (head pos q : ℕ) → Memory → Option Memory
delete_from zero test head pos q h = if pos == head then some h else none
delete_from (suc fuel) test head pos q h =
    let h' = if test pos then list_delete_entry pos h else h in
    let rest = delete_from fuel test head q (h' q).next h' in if pos == head then some h else rest

pub list_delete_if : ℕ → (ℕ → Bool) → ℕ → Memory → Option Memory
list_delete_if fuel test head h = delete_from fuel test head (h head).next (h (h head).next).next h
