-- ===== src/Mospf/Graph/Shortest.antt =====
-- The distances of Dijkstra in Lab9/11-mopsf/mospf_daemon.c are those of shortest walks.
use ucas_computer_network_la.Prelude.{
  ℕ, zero, suc, ◌≤◌, ◌<◌, ◌≡◌, refl, sym, subst, ap, ◌⊎◌, inl, inr, Bool, true, false, Option, none,
  some, arith, ◌==◌, if◌then◌else◌, Bool-cases,
}
use ucas_computer_network_la.Mospf.Graph.{
  Array, write, unreached, min_dist, Paths, start, relax, dijkstra_rounds, dijkstra,
}
use ucas_computer_network_la.Mospf.Graph.Walks.{Best, min_dist-Best}
use ucas_computer_network_la.Mospf.Graph.Round.{
  Walk, here, step, Reached, IsPartial, visiting, after-visited, after-IsPartial,
}

-- The number of places below `n` that are not visited.
pub unvisited : ℕ → Array Bool → ℕ
unvisited zero a = 0
unvisited (suc n) a = let rest = unvisited n a in if a n then rest else suc rest

unvisited-zero : (n : ℕ) (a : Array Bool) → unvisited n a ≡ 0 → (v : ℕ) → v < n → a v ≡ true
unfolding unvisited
unvisited-zero zero a h v l = absurd (omega (arith, l))
unvisited-zero (suc n) a h v l = elim (Bool-cases (a n)) [
  | inl seen ↦ elim (Bool-cases (v == n)) [
    | inl at ↦ let it : v ≡ n = ground arith in subst (λ x. a x ≡ true) (sym it) seen
    | inr off ↦ unvisited-zero n a (ground (arith, h, seen)) v (ground (arith, l, off))
  ]
  | inr fresh ↦ absurd (ground (arith, h, fresh))
]

unvisited-same :
    (n : ℕ) (a b : Array Bool) → ((v : ℕ) → v < n → a v ≡ b v) → unvisited n a ≡ unvisited n b
unfolding unvisited
unvisited-same zero a b h = refl
unvisited-same (suc n) a b h =
    rw (h n (omega arith), unvisited-same n a b (λ v l. h v (omega (arith, l)))) refl

pub unvisited-mark :
    (n u : ℕ) (a b : Array Bool)
    → u < n
    → a u ≡ false
    → ((v : ℕ) → b v ≡ (if v == u then true else a v))
    → suc (unvisited n b) ≡ unvisited n a
unfolding unvisited
unvisited-mark zero u a b l fresh h = absurd (omega (arith, l))
unvisited-mark (suc n) u a b l fresh h = elim (Bool-cases (n == u)) [
  | inl at ↦
      let it : n ≡ u = ground arith in
      let rest = unvisited-same n b a (λ v below. ground (arith, h v, below, it)) in
      let marked : b n ≡ true = ground (arith, h n, at) in
      let was : a n ≡ false = subst (λ x. a x ≡ false) (sym it) fresh in
      rw (marked, was) (ap suc rest)
  | inr off ↦
      let same : b n ≡ a n = ground (arith, h n, off) in
      let rest = unvisited-mark n u a b (ground (arith, l, off)) fresh h in
      rw same (elim (Bool-cases (a n)) [
        | inl seen ↦ rw seen rest
        | inr open_place ↦ rw open_place (ap suc rest)
      ])
]

pub unvisited-fresh : (n : ℕ) → unvisited n (λ _. false) ≡ n
unfolding unvisited
unvisited-fresh zero = refl
unvisited-fresh (suc n) = ap suc (unvisited-fresh n)

unvisited-none : (n : ℕ) (a : Array Bool) → ((v : ℕ) → v < n → a v ≡ true) → unvisited n a ≡ 0
unfolding unvisited
unvisited-none zero a h = refl
unvisited-none (suc n) a h =
    rw (h n (omega arith)) (unvisited-none n a (λ v l. h v (omega (arith, l))))

-- The result: every place is visited, and the invariant holds.
abbrev Finished : Array (Array ℕ) → ℕ → Option Paths → Type 0
Finished graph num none = ⊥
Finished graph num (some s) = IsPartial graph num s × ((v : ℕ) → v < num → s.visited v ≡ true)

dijkstra_rounds-Finished :
    (graph : Array (Array ℕ)) (num rounds : ℕ) (s : Paths)
    → IsPartial graph num s
    → unvisited num s.visited ≡ rounds
    → Finished graph num (dijkstra_rounds graph num rounds s)
unfolding dijkstra_rounds
dijkstra_rounds-Finished graph num zero s i h = (i, unvisited-zero num s.visited h)
dijkstra_rounds-Finished graph num (suc rounds) s i h =
    go (min_dist num s.dist s.visited) (min_dist-Best num s.dist s.visited) (λ u best.
      dijkstra_rounds-Finished graph num rounds (relax graph u num 0 (visiting u s))
        (after-IsPartial graph num u s i best)
        (omega (
          arith,
          h,
          unvisited-mark num u s.visited (relax graph u num 0 (visiting u s)).visited best.0 best.1
              (after-visited graph num u s),
        )))
  where
    go :
        (o : Option ℕ)
        → Best num s.dist s.visited o
        → ((u : ℕ)
            → Best num s.dist s.visited (some u)
            → Finished graph num
                (dijkstra_rounds graph num rounds (relax graph u num 0 (visiting u s))))
        → Finished graph num (elim o [
          | none ↦ none
          | some u ↦ dijkstra_rounds graph num rounds (relax graph u num 0 (visiting u s))
        ])
    go none all next = absurd (omega (arith, h, unvisited-none num s.visited all))
    go (some u) best next = next u best

start-IsPartial : (graph : Array (Array ℕ)) (num : ℕ) → IsPartial graph num start
unfolding start write
start-IsPartial graph num = record {
  origin = refl;
  top = λ v l. ground arith;
  walks = λ v l. elim (Bool-cases (v == 0)) [
    | inl at ↦ let it : v ≡ 0 = ground arith in rw it (inr here)
    | inr off ↦ rw off (inl refl)
  ];
  ordered = λ a b la lb seen fresh. absurd (ground (arith, seen));
  closed = λ a b la lb seen link. absurd (ground (arith, seen));
  reached = λ v l. ground arith;
}

start-unvisited : (num : ℕ) → unvisited num start.visited ≡ num
unfolding start unvisited
start-unvisited zero = refl
start-unvisited (suc num) = ap suc (start-unvisited num)

Walk-lt : {graph : Array (Array ℕ)} {num v d : ℕ} → 0 < num → Walk graph num v d → v < num
Walk-lt l here = l
Walk-lt l (step way below link) = below

Walk-longer :
    {graph : Array (Array ℕ)} {num v d : ℕ} (s : Paths)
    → 0 < num
    → IsPartial graph num s
    → ((w : ℕ) → w < num → s.visited w ≡ true)
    → Walk graph num v d
    → s.dist v ≤ d
Walk-longer s l i all here = omega (arith, i.origin)
Walk-longer s l i all (step {u} {v} {d} way below link) = omega (
  arith,
  Walk-longer s l i all way,
  i.closed u v (Walk-lt l way) below (all u (Walk-lt l way)) link,
)

-- What the distances and the last links should be.
abbrev pub IsShortest : Array (Array ℕ) → ℕ → Option Paths → Type 0
IsShortest graph num none = ⊥
IsShortest graph num (some s) =
    ((v : ℕ) → v < num → (s.dist v ≡ unreached) ⊎ Walk graph num v (s.dist v))
    × ((v d : ℕ) → Walk graph num v d → s.dist v ≤ d)
    × ((v : ℕ) → v < num → Reached graph num s v (s.prev v))

-- Dijkstra comes to its end without a use of the place -1, and then each distance is that of a walk
-- from the router itself, or 127, and no walk is shorter; a place with a predecessor is a link further
-- than this, and one without is the router itself or at distance 127.
pub dijkstra-IsShortest :
    (graph : Array (Array ℕ)) (num : ℕ) → 0 < num → IsShortest graph num (dijkstra graph num)
unfolding dijkstra
dijkstra-IsShortest graph num l =
    go (dijkstra_rounds graph num num start) (
      dijkstra_rounds-Finished graph num num start (start-IsPartial graph num)
        (start-unvisited num))
  where
    go : (o : Option Paths) → Finished graph num o → IsShortest graph num o
    go (some s) (i, all) = (i.walks, λ v d way. Walk-longer s l i all way, i.reached)
    go none h = elim h [ ]
