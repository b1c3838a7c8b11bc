-- ===== src/Mospf/Routes/Hops.antt =====
-- The next hops of generate_rtable_thread of Lab9/11-mopsf/mospf_daemon.c.
use ucas_computer_network_la.Prelude.{
  ℕ, zero, suc, ◌+◌, ◌<◌, ◌≡◌, ◌≢◌, subst, inl, inr, Option, none, some, arith,
}
use ucas_computer_network_la.Mospf.Graph.{Array, unreached, Paths, dijkstra}
use ucas_computer_network_la.Mospf.Graph.Round.{Reached}
use ucas_computer_network_la.Mospf.Graph.Shortest.{IsShortest, dijkstra-IsShortest}
use ucas_computer_network_la.Mospf.Routes.{first_hop}

-- The router `t` is reached from `h` over links of which each adds its length to the distance.
pub data Leads (graph : Array (Array ℕ)) (s : Paths) (h : ℕ) : ℕ → Type 0 where
  arrived : Leads graph s h h
  onward :
      {p t : ℕ}
      → Leads graph s h p
      → 0 < graph p t
      → s.dist t ≡ s.dist p + graph p t
      → Leads graph s h t

-- A next hop: a router with a link from this one, and with a way to `t` on which distances add up.
abbrev pub NextHop : Array (Array ℕ) → ℕ → Paths → ℕ → Option ℕ → Type 0
NextHop graph num s t none = ⊥
NextHop graph num s t (some h) =
    (h < num) × (0 < graph 0 h) × (s.dist h ≡ s.dist 0 + graph 0 h) × Leads graph s h t

search-NextHop :
    (graph : Array (Array ℕ)) (num fuel t : ℕ) (s : Paths)
    → IsShortest graph num (some s)
    → t < num
    → t ≢ 0
    → s.dist t < unreached
    → s.dist t < fuel
    → NextHop graph num s t (first_hop fuel s.prev t)
unfolding first_hop
search-NextHop graph num zero t s h l away near enough = absurd (omega (arith, enough))
search-NextHop graph num (suc fuel) t s h l away near enough = go (s.prev t) (h.2 t l) (λ p r.
    closer (suc p) (first_hop fuel s.prev (suc p)) (r.2, r.3)
      (search-NextHop graph num fuel (suc p) s h r.0 (λ e. omega (arith, e))
        (omega (arith, r.2, r.3, near)) (omega (arith, r.2, r.3, enough))))
  where
    closer :
        (p : ℕ) (o : Option ℕ)
        → (0 < graph p t) × (s.dist t ≡ s.dist p + graph p t)
        → NextHop graph num s p o
        → NextHop graph num s t o
    closer p none link n = elim n [ ]
    closer p (some hop) link n = (n.0, n.1, n.2, onward n.3 link.0 link.1)

    go :
        (o : Option ℕ)
        → Reached graph num s t o
        → ((p : ℕ)
            → Reached graph num s t (some (suc p))
            → NextHop graph num s t (first_hop fuel s.prev (suc p)))
        → NextHop graph num s t (elim o [
          | none ↦ none
          | some zero ↦ some t
          | some (suc p) ↦ first_hop fuel s.prev (suc p)
        ])
    go none (inl e) next = absurd (away e)
    go none (inr e) next = absurd (omega (arith, e, near))
    go (some zero) r next = (l, r.2, r.3, arrived)
    go (some (suc p)) r next = next p r

-- For each other router that is nearer than 127 the search along the last links ends, within 127
-- turns, at a router with a link from this one, and the links from there to the destination add up to
-- its distance.
pub first_hop-NextHop :
    (graph : Array (Array ℕ)) (num t : ℕ) (s : Paths)
    → dijkstra graph num ≡ some s
    → t < num
    → t ≢ 0
    → s.dist t < unreached
    → NextHop graph num s t (first_hop unreached s.prev t)
first_hop-NextHop graph num t s e l away near =
    search-NextHop graph num 127 t s
      (subst (IsShortest graph num) e (dijkstra-IsShortest graph num (omega (arith, l)))) l away
      near near
