-- ===== src/Mospf/Graph.antt =====
-- The graph of the routers and the shortest paths of Lab9/11-mopsf/mospf_daemon.c. The arrays have
-- four places (mospf_daemon.h); `none` stands for a use outside of them.
pub mod Walks
pub mod Round
pub mod Shortest
use ucas_computer_network_la.Prelude.{
  ℕ, zero, suc, ◌+◌, Bool, true, false, not, ◌&&◌, List, [], ◌∷◌, ◌++◌, Option, none, some, ltb,
  leb, ◌==◌, if◌then◌else◌, length, map,
}
use ucas_computer_network_la.Mospf.{DbEntry, Lsa}

abbrev pub max_routers : ℕ
max_routers = 4

-- INT8_MAX, the distance of a router that is not reached.
abbrev pub unreached : ℕ
unreached = 127

-- The bytes of `graph` are set to INT8_MAX - 1.
abbrev pub no_link : ℕ
no_link = 0x7e7e7e7e

-- An array, by index.
abbrev pub Array {ℓ} : Type ℓ → Type ℓ
Array A = ℕ → A

unfoldable pub write {ℓ} : {A : Type ℓ} → Array A → ℕ → A → Array A
write a i v j = if j == i then v else a j

-- The place of a router in the list; `none` is -1.
unfoldable pub locate_from : ℕ → ℕ → List ℕ → Option ℕ
locate_from rid i [] = none
locate_from rid i (r ∷ rs) = if r == rid then some i else locate_from rid (suc i) rs

unfoldable pub locate_entry : ℕ → List ℕ → Option ℕ
locate_entry rid router_list = locate_from rid 0 router_list

-- `router_list`: the router itself, and the author of each entry.
unfoldable pub router_list : ℕ → List DbEntry → List ℕ
router_list router_id db = router_id ∷ map (λ e. e.rid) db

unfoldable pub link : ℕ → ℕ → Array (Array ℕ) → Array (Array ℕ)
link u v graph =
    write (write graph u (write (graph u) v 1)) v
      (write (write graph u (write (graph u) v 1) v) u 1)

-- The links of one entry, whose author has the place `u`.
unfoldable pub add_links : ℕ → List ℕ → List Lsa → Array (Array ℕ) → Option (Array (Array ℕ))
add_links u routers [] graph = some graph
add_links u routers (a ∷ rest) graph =
    if a.rid == 0 then add_links u routers rest graph else (elim (locate_entry a.rid routers) [
      | none ↦ none
      | some v ↦ add_links u routers rest (link u v graph)
    ])

unfoldable pub add_entries : List ℕ → List DbEntry → Array (Array ℕ) → Option (Array (Array ℕ))
add_entries routers [] graph = some graph
add_entries routers (e ∷ es) graph = elim (locate_entry e.rid routers) [
  | none ↦ none
  | some u ↦ elim (add_links u routers e.array graph) [
    | none ↦ none
    | some graph' ↦ add_entries routers es graph'
  ]
]

-- `none` where there are more routers than places, or an entry names a router that has none.
unfoldable pub init_graph : ℕ → List DbEntry → Option (Array (Array ℕ))
init_graph router_id db =
    if ltb max_routers (length (router_list router_id db))
    then none
    else add_entries (router_list router_id db) db (λ _ _. no_link)

-- The loop of min_dist over `n` places from `u` on; `i` is the best so far, `none` for -1.
unfoldable pub min_from : ℕ → ℕ → Array ℕ → Array Bool → Option ℕ → Option ℕ
min_from zero u dist visited i = i
min_from (suc n) u dist visited i = min_from n (suc u) dist visited (
    if visited u
    then i
    else (elim i [ none ↦ some u | some b ↦ if ltb (dist u) (dist b) then some u else some b ]))

unfoldable pub min_dist : ℕ → Array ℕ → Array Bool → Option ℕ
min_dist n dist visited = min_from n 0 dist visited none

-- The arrays of Dijkstra; `none` in `prev` is -1.
pub record Paths : Type 0 where
  pub dist : Array ℕ
  pub prev : Array (Option ℕ)
  pub visited : Array Bool

unfoldable pub start : Paths
start = record { dist = write (λ _. unreached) 0 0; prev = λ _. none; visited = λ _. false }

unfoldable pub is_shorter : Array (Array ℕ) → ℕ → Paths → ℕ → Bool
is_shorter graph u s v =
    (not (s.visited v) && ltb (s.dist u + graph u v) (s.dist v)) && ltb 0 (graph u v)

-- A turn of the inner loop.
unfoldable pub relax_one : Array (Array ℕ) → ℕ → ℕ → Paths → Paths
relax_one graph u v s =
    if is_shorter graph u s v
    then (record s { dist = write s.dist v (s.dist u + graph u v); prev = write s.prev v (some u) })
    else s

-- The inner loop over `n` places from `v` on.
unfoldable pub relax : Array (Array ℕ) → ℕ → ℕ → ℕ → Paths → Paths
relax graph u zero v s = s
relax graph u (suc n) v s = relax graph u n (suc v) (relax_one graph u v s)

-- The outer loop with `rounds` to go; `none` where it would visit the place -1.
unfoldable pub dijkstra_rounds : Array (Array ℕ) → ℕ → ℕ → Paths → Option Paths
dijkstra_rounds graph num zero s = some s
dijkstra_rounds graph num (suc rounds) s = elim (min_dist num s.dist s.visited) [
  | none ↦ none
  | some u ↦
      dijkstra_rounds graph num rounds
        (relax graph u num 0 (record s { visited = write s.visited u true }))
]

-- The arrays of the program have 4 places: init_graph goes on only with `num` of at most 4.
unfoldable pub dijkstra : Array (Array ℕ) → ℕ → Option Paths
dijkstra graph num = dijkstra_rounds graph num num start
