-- ===== src/ListHead/Tests.antt =====
-- Lists in memory of Lab15/16-tcp_stack/include/list.h: the head at 1, the nodes behind it.
use ucas_computer_network_la.Prelude.{
  ℕ, ◌≡◌, refl, [], ◌∷◌, some, none, true, arith, ◌==◌, Bool, keep_if, not,
}
use ucas_computer_network_la.ListHead.{
  Memory, init_list_head, list_add_head, list_add_tail, list_delete_entry, list_for_each_entry,
  list_delete_if, list_empty, set_next, set_prev, list_insert, visit,
}
use ucas_computer_network_la.ListHead.Chains.{IsList}
use ucas_computer_network_la.ListHead.Insert.{init_list_head-IsList, list_add_tail-IsList}
use ucas_computer_network_la.ListHead.Loop.{list_delete_if_lem, list_add_head-twice}
use ucas_computer_network_la.ListHead.Move.{list_delete_entry-list_add_tail}

abbrev blank : Memory
blank x = record { next = 0; prev = 0 }

-- The list of 9 has the node 8, and the list of 1 the nodes 2, 3 and 4.
abbrev two_lists : Memory
two_lists = list_add_tail 4 1 (
    list_add_tail 3 1
      (list_add_tail 2 1 (init_list_head 1 (list_add_tail 8 9 (init_list_head 9 blank)))))

two_lists-one : IsList two_lists 1 (2 ∷ 3 ∷ 4 ∷ [])
two_lists-one =
    list_add_tail-IsList _ 4 1 (2 ∷ 3 ∷ [])
      (list_add_tail-IsList _ 3 1 (2 ∷ [])
        (list_add_tail-IsList _ 2 1 [] (init_list_head-IsList 1 _) (omega arith)) (omega arith))
      (omega arith)

two_lists-nine : IsList two_lists 9 (8 ∷ [])
unfolding list_add_tail list_insert init_list_head set_next set_prev
two_lists-nine = record { chain = ((refl, refl), (refl, refl)); apart = omega arith }

list_for_each_entry-two_lists : list_for_each_entry 9 1 two_lists ≡ some (2 ∷ 3 ∷ 4 ∷ [])
unfolding list_for_each_entry visit list_add_tail list_insert init_list_head set_next set_prev
list_for_each_entry-two_lists = refl

list_delete_entry-list_add_tail_example :
    IsList (list_add_tail 3 9 (list_delete_entry 3 two_lists)) 1 (2 ∷ 4 ∷ [])
    × IsList (list_add_tail 3 9 (list_delete_entry 3 two_lists)) 9 (8 ∷ 3 ∷ [])
list_delete_entry-list_add_tail_example =
    list_delete_entry-list_add_tail two_lists 1 9 3 (2 ∷ []) (4 ∷ []) (8 ∷ []) two_lists-one
      two_lists-nine (omega arith)

abbrev odd : ℕ → Bool
odd x = x == 3

list_delete_if_lem_example :
    (h' : Memory) × (list_delete_if 3 odd 1 two_lists ≡ some h')
    × IsList h' 1 (keep_if (λ x. not (odd x)) (2 ∷ 3 ∷ 4 ∷ []))
list_delete_if_lem_example =
    list_delete_if_lem 3 1 odd (2 ∷ 3 ∷ 4 ∷ []) two_lists two_lists-one (omega arith)

list_add_head-twice_example :
    (list_for_each_entry 100 1 (list_add_head 5 1 (list_add_head 5 1 two_lists)) ≡ none)
    × (list_empty 5 (list_add_head 5 1 (list_add_head 5 1 two_lists)) ≡ true)
list_add_head-twice_example = list_add_head-twice 100 5 1 two_lists (omega arith)

abbrev one_node : Memory
one_node = list_add_tail 2 1 (init_list_head 1 blank)
