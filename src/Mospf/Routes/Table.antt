-- ===== src/Mospf/Routes/Table.antt =====
-- The table that a turn of generate_rtable_thread of Lab9/11-mopsf/mospf_daemon.c makes, and how the
-- turn ends.
use mathlib.Core.List.{append_assoc, append-nil}
use ucas_computer_network_la.Prelude.{
  ℕ, zero, suc, ◌<◌, ◌≡◌, refl, sym, subst, ap, ◌∙◌, inl, inr, Bool, true, false, List, [], ◌∷◌,
  ◌++◌, Option, none, some, arith, ◌==◌, Bool-cases, Option-cases, length, keep_if, get_or, map,
}
use ucas_computer_network_la.Route.{RtEntry, new_rt_entry, add_rt_entry}
use ucas_computer_network_la.Mospf.{DbEntry, Lsa, Iface, Router}
use ucas_computer_network_la.Mospf.Graph.{
  Array, write, unreached, Paths, min_dist, router_list, init_graph, dijkstra,
}
use ucas_computer_network_la.Mospf.Graph.Walks.{Best, min_dist-Best}
use ucas_computer_network_la.Mospf.Graph.Shortest.{unvisited, unvisited-mark, unvisited-fresh}
use ucas_computer_network_la.Mospf.Routes.{
  first_hop, find_gateway, has_route, add_networks, add_routes, Turn, finished,
  writes_before_visited, outside, add_rounds, generate_rtable,
}

-- No route of `new` is to a network of `before`, or of one of the routes before it.
abbrev pub FreshIn : List RtEntry → List RtEntry → Type 0
FreshIn before [] = Unit {0}
FreshIn before (e ∷ es) = (has_route e.dest e.mask before ≡ false) × FreshIn (before ++ e ∷ []) es

-- The table is the old one followed by routes to networks that it did not have, one for each.
abbrev pub AddedTo : List RtEntry → List RtEntry → Type 0
AddedTo before after = (new : List RtEntry) × (after ≡ before ++ new) × FreshIn before new

FreshIn-append :
    (before new more : List RtEntry)
    → FreshIn before new
    → FreshIn (before ++ new) more
    → FreshIn before (new ++ more)
FreshIn-append before [] more h k = subst (λ b. FreshIn b more) (append-nil before) k
FreshIn-append before (e ∷ es) more h k = (
  h.0,
  FreshIn-append (before ++ e ∷ []) es more h.1
      (subst (λ b. FreshIn b more) (sym (append_assoc before (e ∷ []) es)) k),
)

AddedTo-refl : (t : List RtEntry) → AddedTo t t
AddedTo-refl t = ([], sym (append-nil t), tt)

AddedTo-trans : (a b c : List RtEntry) → AddedTo a b → AddedTo b c → AddedTo a c
AddedTo-trans a b c (new, e, f) (more, e', f') = (
  new ++ more,
  e' ∙ ap (λ x. x ++ more) e ∙ append_assoc a new more,
  FreshIn-append a new more f (subst (λ x. FreshIn x more) e f'),
)

add_networks-AddedTo :
    (gw k : ℕ) (ls : List Lsa) (t : List RtEntry) → AddedTo t (add_networks gw k ls t)
unfolding add_networks add_rt_entry new_rt_entry
add_networks-AddedTo gw k [] t = AddedTo-refl t
add_networks-AddedTo gw k (a ∷ rest) t = elim (Bool-cases (has_route a.network a.mask t)) [
  | inl there ↦ rw there (add_networks-AddedTo gw k rest t)
  | inr missing ↦
      let e = new_rt_entry a.network a.mask gw k in
      rw missing (
        AddedTo-trans t (add_rt_entry e t) (add_networks gw k rest (add_rt_entry e t))
          (e ∷ [], refl, (missing, tt)) (add_networks-AddedTo gw k rest (add_rt_entry e t)))
]

-- The result of the inner loop, which may read prev[-1].
abbrev Extends : List RtEntry → Option (List RtEntry) → Type 0
Extends before none = Unit {0}
Extends before (some after) = AddedTo before after

Extends-trans :
    (a b : List RtEntry) (o : Option (List RtEntry)) → AddedTo a b → Extends b o → Extends a o
Extends-trans a b none h k = tt
Extends-trans a b (some c) h k = AddedTo-trans a b c h k

add_routes-Extends :
    (prev : Array (Option ℕ)) (routers : List ℕ) (is : List Iface) (es : List DbEntry) (t : ℕ)
    (rt : List RtEntry)
    → Extends rt (add_routes prev routers is es t rt)
unfolding add_routes
add_routes-Extends prev routers is [] t rt = AddedTo-refl rt
add_routes-Extends prev routers is (e ∷ es) t rt = elim (Bool-cases (e.rid == get_or routers t 0)) [
  | inr other ↦ rw (other, Extends) (add_routes-Extends prev routers is es t rt)
  | inl same ↦
      rw (same, Extends)
        (elim (Option-cases (first_hop unreached prev t)) [
          | inl n ↦ rw (n, Extends) tt
          | inr (hop, found) ↦
              rw (found, Extends)
                (elim (Option-cases (find_gateway (get_or routers hop 0) 0 is)) [
                  | inl n ↦ rw (n, Extends) (AddedTo-refl rt)
                  | inr ((k, gw), g) ↦
                      rw (g, Extends)
                        (Extends-trans rt (add_networks gw k e.array rt)
                          (add_routes prev routers is es hop (add_networks gw k e.array rt))
                          (add_networks-AddedTo gw k e.array rt)
                          (add_routes-Extends prev routers is es hop
                            (add_networks gw k e.array rt)))
                ])
        ])
]

-- How a turn ends that starts with the table `before`: never as it should, and where it comes to the
-- write of visited[-1], routes have been added to that table.
abbrev pub Ends : List RtEntry → Turn → Type 0
Ends before (finished after) = ⊥
Ends before (writes_before_visited after) = AddedTo before after
Ends before outside = Unit {0}

Ends-trans : (a b : List RtEntry) (o : Turn) → AddedTo a b → Ends b o → Ends a o
Ends-trans a b (finished c) h k = k
Ends-trans a b (writes_before_visited c) h k = AddedTo-trans a b c h k
Ends-trans a b outside h k = tt

-- More rounds than there are places left.
add_rounds-Ends :
    (rounds num : ℕ) (s : Paths) (routers : List ℕ) (is : List Iface) (db : List DbEntry)
    (visited : Array Bool) (rt : List RtEntry)
    → unvisited num visited < rounds
    → Ends rt (add_rounds rounds num s routers is db visited rt)
unfolding add_rounds write
add_rounds-Ends zero num s routers is db visited rt l = absurd (omega (arith, l))
add_rounds-Ends (suc n) num s routers is db visited rt l =
    elim (Option-cases (min_dist num s.dist visited)) [
      | inl e ↦ rw (e, add_rounds, Ends) (AddedTo-refl rt)
      | inr (t, e) ↦
          let best : Best num s.dist visited (some t) =
            subst (Best num s.dist visited) e (min_dist-Best num s.dist visited) in
          let fewer : suc (unvisited num (write visited t true)) ≡ unvisited num visited =
            unvisited-mark num t visited (write visited t true) best.0 best.1 (λ v. refl) in
          rw (e, add_rounds)
            (elim (Option-cases (add_routes s.prev routers is db t rt)) [
              | inl q ↦ rw (q, Ends) tt
              | inr (rt', q) ↦ rw q (
                  Ends-trans rt rt' (add_rounds n num s routers is db (write visited t true) rt')
                    (subst (Extends rt) q (add_routes-Extends s.prev routers is db t rt))
                    (add_rounds-Ends n num s routers is db (write visited t true) rt'
                      (omega (arith, fewer, l))))
            ])
    ]

-- At the start only the router itself is visited.
start_unvisited : (n : ℕ) → suc (unvisited (suc n) (write (λ _. false) 0 true)) ≡ suc n
unfolding write
start_unvisited n =
    unvisited-mark (suc n) 0 (λ _. false) (write (λ _. false) 0 true) (omega arith) refl (λ v. refl)
    ∙ unvisited-fresh (suc n)

-- No turn of the thread comes to its end: the outer loop makes one round more than there are places
-- left, and the last one writes visited[-1]. Unless the turn has left its arrays before (with more than 4
-- routers, a link to a router that is not in the list, or a read of prev[-1]), the table is then that of the connected networks, in their order,
-- followed by routes to networks that it did not have, at most one for each network.
pub generate_rtable-Ends :
    (r : Router) (rtable : List RtEntry)
    → Ends (keep_if (λ e. e.gw == 0) rtable) (generate_rtable r rtable)
unfolding generate_rtable router_list
generate_rtable-Ends r rtable =
    let routers = router_list r.router_id r.mospf_db in
    let num = length routers in
    let connected = keep_if (λ e. e.gw == 0) rtable in
    elim (Option-cases (init_graph r.router_id r.mospf_db)) [
      | inl n ↦ rw (n, generate_rtable, Ends) tt
      | inr (g, e) ↦
          rw (e, generate_rtable)
            (elim (Option-cases (dijkstra g num)) [
              | inl n ↦ rw (n, Ends) tt
              | inr (s, q) ↦ rw q (
                  add_rounds-Ends num num s routers r.iface_list r.mospf_db
                    (write (λ _. false) 0 true) connected
                    (omega (arith, start_unvisited (length (map (λ x. x.rid) r.mospf_db)))))
            ])
    ]
