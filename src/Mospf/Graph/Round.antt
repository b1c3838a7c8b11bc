-- ===== src/Mospf/Graph/Round.antt =====
-- A round of Dijkstra in Lab9/11-mopsf/mospf_daemon.c, against the walks in the graph.
use ucas_computer_network_la.Prelude.{
  ℕ, ◌+◌, ◌≤◌, ◌<◌, ◌≡◌, ◌≢◌, sym, subst, ap, ◌∙◌, ◌⊎◌, inl, inr, true, false, ◌&&◌, Option, none,
  some, arith, ltb, leb, ◌==◌, if◌then◌else◌, Bool-cases,
}
use ucas_computer_network_la.Mospf.Graph.{Array, write, unreached, Paths, is_shorter, relax}
use ucas_computer_network_la.Mospf.Graph.Walks.{Best, relax-Relaxed, shorter-unvisited, not_shorter}

-- The walks from the router itself, among `num` routers, with their lengths.
pub data Walk (graph : Array (Array ℕ)) (num : ℕ) : ℕ → ℕ → Type 0 where
  here : Walk graph num 0 0
  step :
      {u v d : ℕ} → Walk graph num u d → v < num → 0 < graph u v → Walk graph num v (d + graph u v)

-- The link by which a router was reached last.
abbrev pub Reached : Array (Array ℕ) → ℕ → Paths → ℕ → Option ℕ → Type 0
Reached graph num s v none = (v ≡ 0) ⊎ (s.dist v ≡ unreached)
Reached graph num s v (some u) =
    (u < num) × (s.visited u ≡ true) × (0 < graph u v) × (s.dist v ≡ s.dist u + graph u v)

-- The state between two rounds.
pub record IsPartial (graph : Array (Array ℕ)) (num : ℕ) (s : Paths) : Type 0 where
  pub origin : s.dist 0 ≡ 0
  pub top : (v : ℕ) → v < num → s.dist v ≤ unreached
  pub walks : (v : ℕ) → v < num → (s.dist v ≡ unreached) ⊎ Walk graph num v (s.dist v)
  pub ordered :
      (a b : ℕ) → a < num → b < num → s.visited a ≡ true → s.visited b ≡ false → s.dist a ≤ s.dist b
  pub closed :
      (a b : ℕ)
      → a < num
      → b < num
      → s.visited a ≡ true
      → 0 < graph a b
      → s.dist b ≤ s.dist a + graph a b
  pub reached : (v : ℕ) → v < num → Reached graph num s v (s.prev v)

-- The state once `u` is visited.
abbrev pub visiting : ℕ → Paths → Paths
visiting u s = record s { visited = write s.visited u true }

-- A place after a round: reached through `u`, or as it was and no nearer through `u`.
abbrev Through : Array (Array ℕ) → ℕ → Paths → Paths → ℕ → Type 0
Through graph u s s' w =
    (s.visited w ≡ false)
    × (w ≢ u)
    × (s'.dist w ≡ s.dist u + graph u w)
    × (s.dist u + graph u w < s.dist w)
    × (0 < graph u w)
    × (s'.prev w ≡ some u)

abbrev Unchanged : Array (Array ℕ) → ℕ → Paths → Paths → ℕ → Type 0
Unchanged graph u s s' w =
    (s'.dist w ≡ s.dist w)
    × (s'.prev w ≡ s.prev w)
    × ((s.visited w ≡ true) ⊎ (w ≡ u) ⊎ (s.dist w ≤ s.dist u + graph u w) ⊎ (graph u w ≡ 0))

module _ (graph : Array (Array ℕ)) (num u : ℕ) (s : Paths) where
  abbrev pub after : Paths
  after = relax graph u num 0 (visiting u s)

  pub after-visited : (w : ℕ) → after.visited w ≡ (if w == u then true else s.visited w)
  unfolding write
  after-visited w = ap (λ f. f w) (relax-Relaxed graph u num 0 w (visiting u s) (ground arith)).0

  after-cases : (w : ℕ) → w < num → Through graph u s after w ⊎ Unchanged graph u s after w
  unfolding write
  after-cases w l =
      let r = relax-Relaxed graph u num 0 w (visiting u s) (ground arith) in
      let range : (leb 0 w && ltb w (0 + num)) ≡ true = ground arith in
      elim (Bool-cases (is_shorter graph u (visiting u s) w)) [
        | inl shorter ↦
            let f = shorter-unvisited graph u w (visiting u s) shorter in
            inl (
              ground (arith, f),
              ground (arith, f),
              ground (arith, r.1, range, shorter),
              f.1,
              f.2,
              ground (arith, r.2, range, shorter),
            )
        | inr longer ↦ inr (
          ground (arith, r.1, range, longer),
          ground (arith, r.2, range, longer),
          ground (arith, not_shorter graph u w (visiting u s) longer),
        )
      ]

  -- A round keeps the invariant, where `u` is a nearest place of those not visited.
  module _ (i : IsPartial graph num s) (best : Best num s.dist s.visited (some u)) where
    after-le : (w : ℕ) → w < num → after.dist w ≤ s.dist w
    after-le w l = ground (arith, after-cases w l)

    -- A place that is visited keeps its distance.
    after-settled : (w : ℕ) → w < num → s.visited w ≡ true → after.dist w ≡ s.dist w
    after-settled w l seen = ground (arith, after-cases w l, seen)

    after-u : after.dist u ≡ s.dist u
    after-u = ground (arith, after-cases u best.0)

    -- No place that is not visited comes below `u`.
    after-above : (w : ℕ) → w < num → s.visited w ≡ false → s.dist u ≤ after.dist w
    after-above w l fresh = ground (arith, after-cases w l, best.2 w l fresh)

    after-origin : after.dist 0 ≡ 0
    after-origin = ground (arith, after-le 0 (omega (arith, best.0)), i.origin)

    after-walks : (v : ℕ) → v < num → (after.dist v ≡ unreached) ⊎ Walk graph num v (after.dist v)
    after-walks v l = elim (after-cases v l) [
      | inl (fresh, apart, dist, less, some_link, prev) ↦ elim (i.walks u best.0) [
        | inl far ↦ absurd (omega (arith, far, less, i.top v l))
        | inr way ↦ inr (subst (Walk graph num v) (sym dist) (step way l some_link))
      ]
      | inr (dist, prev, why) ↦
          subst (λ d. (d ≡ unreached) ⊎ Walk graph num v d) (sym dist) (i.walks v l)
    ]

    seen-cases : (w : ℕ) → after.visited w ≡ true → (w ≡ u) ⊎ (s.visited w ≡ true)
    seen-cases w h = ground (arith, after-visited w)

    unseen : (w : ℕ) → after.visited w ≡ false → (w ≢ u) × (s.visited w ≡ false)
    unseen w h = ground (arith, after-visited w)

    after-ordered :
        (a b : ℕ)
        → a < num
        → b < num
        → after.visited a ≡ true
        → after.visited b ≡ false
        → after.dist a ≤ after.dist b
    after-ordered a b la lb seen fresh =
        let fresh' = unseen b fresh in
        let above = after-above b lb fresh'.1 in
        elim (seen-cases a seen) [
          | inl it ↦
              subst (λ x. after.dist x ≤ after.dist b) (sym it) (omega (arith, after-u, above))
          | inr old ↦
              omega (arith, after-settled a la old, i.ordered a u la best.0 old best.1, above)
        ]

    after-closed :
        (a b : ℕ)
        → a < num
        → b < num
        → after.visited a ≡ true
        → 0 < graph a b
        → after.dist b ≤ after.dist a + graph a b
    after-closed a b la lb seen link = elim (seen-cases a seen) [
      | inl it ↦
          subst (λ x. after.dist b ≤ after.dist x + graph x b) (sym it)
            (through b lb (subst (λ x. 0 < graph x b) it link))
      | inr old ↦ omega (arith, after-settled a la old, after-le b lb, i.closed a b la lb old link)
    ]
      where
        through : (b : ℕ) → b < num → 0 < graph u b → after.dist b ≤ after.dist u + graph u b
        through b lb link = elim (after-cases b lb) [
          | inl near ↦ omega (arith, near.2, after-u)
          | inr (dist, prev, why) ↦ elim why [
            | inl seen ↦ omega (arith, dist, after-u, i.ordered b u lb best.0 seen best.1)
            | inr (inl it) ↦
                subst (λ x. after.dist x ≤ after.dist u + graph u x) (sym it) (omega arith)
            | inr (inr (inl near)) ↦ omega (arith, dist, after-u, near)
            | inr (inr (inr none_there)) ↦ absurd (omega (arith, none_there, link))
          ]
        ]

    keep-Reached :
        (v : ℕ) (o : Option ℕ)
        → after.dist v ≡ s.dist v
        → Reached graph num s v o
        → Reached graph num after v o
    keep-Reached v none same (inl e) = inl e
    keep-Reached v none same (inr e) = inr (same ∙ e)
    keep-Reached v (some p) same (lp, seen, link, e) = (
      lp,
      ground (arith, after-visited p, seen),
      link,
      omega (arith, same, e, after-settled p lp seen),
    )

    after-Reached : (v : ℕ) → v < num → Reached graph num after v (after.prev v)
    after-Reached v l = elim (after-cases v l) [
      | inl (fresh, apart, dist, less, link, prev) ↦
          subst (Reached graph num after v) (sym prev)
            (best.0, ground (arith, after-visited u), link, omega (arith, dist, after-u))
      | inr (dist, prev, why) ↦
          subst (Reached graph num after v) (sym prev)
            (keep-Reached v (s.prev v) dist (i.reached v l))
    ]

    pub after-IsPartial : IsPartial graph num after
    after-IsPartial = record {
      origin = after-origin;
      top = λ v l. omega (arith, after-le v l, i.top v l);
      walks = after-walks;
      ordered = after-ordered;
      closed = after-closed;
      reached = after-Reached;
    }
