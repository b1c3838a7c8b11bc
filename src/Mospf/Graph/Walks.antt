-- ===== src/Mospf/Graph/Walks.antt =====
-- One round of Dijkstra in Lab9/11-mopsf/mospf_daemon.c: the choice of min_dist and the inner loop.
use ucas_computer_network_la.Prelude.{
  ℕ, zero, suc, ◌+◌, ◌≤◌, ◌<◌, ◌≡◌, refl, sym, subst, ap, ◌∙◌, ==_refl, ◌⊎◌, inl, inr, Bool, true,
  false, ◌&&◌, Option, none, some, arith, ltb, leb, ◌==◌, if◌then◌else◌, Bool-cases,
}
use ucas_computer_network_la.Mospf.Graph.{
  Array, write, min_from, min_dist, Paths, is_shorter, relax, relax_one,
}

-- The best so far among the places before `u`.
abbrev pub Best : ℕ → Array ℕ → Array Bool → Option ℕ → Type 0
Best u dist visited none = (v : ℕ) → v < u → visited v ≡ true
Best u dist visited (some b) =
    (b < u) × (visited b ≡ false) × ((v : ℕ) → v < u → visited v ≡ false → dist b ≤ dist v)

at_or_before : (v u : ℕ) → v < suc u → (v ≡ u) ⊎ (v < u)
at_or_before v u h = ground arith

next_best : ℕ → Array ℕ → Array Bool → Option ℕ → Option ℕ
next_best u dist visited i =
    if visited u
    then i
    else (elim i [ none ↦ some u | some b ↦ if ltb (dist u) (dist b) then some u else some b ])

next_best-Best :
    (u : ℕ) (dist : Array ℕ) (visited : Array Bool) (i : Option ℕ)
    → Best u dist visited i
    → Best (suc u) dist visited (next_best u dist visited i)
unfolding next_best
next_best-Best u dist visited none h = elim (Bool-cases (visited u)) [
  | inl seen ↦ rw seen (λ v l. elim (at_or_before v u l) [ inl e ↦ cc | inr before ↦ h v before ])
  | inr fresh ↦ rw fresh (
    omega arith,
    fresh,
    λ v l f. elim (at_or_before v u l) [
      | inl e ↦ subst (λ x. dist u ≤ dist x) (sym e) (omega arith)
      | inr before ↦ absurd (ground (arith, h v before, f))
    ],
  )
]
next_best-Best u dist visited (some b) h = elim (Bool-cases (visited u)) [
  | inl seen ↦ rw seen (
    omega (arith, h.0),
    h.1,
    λ v l f. elim (at_or_before v u l) [ inl e ↦ absurd (cc) | inr before ↦ h.2 v before f ],
  )
  | inr fresh ↦ rw fresh (elim (Bool-cases (ltb (dist u) (dist b))) [
    | inl less ↦
        let lower : dist u < dist b = ground arith in
        rw less (
          omega arith,
          fresh,
          λ v l f. elim (at_or_before v u l) [
            | inl e ↦ subst (λ x. dist u ≤ dist x) (sym e) (omega arith)
            | inr before ↦ omega (arith, lower, h.2 v before f)
          ],
        )
    | inr more ↦
        let higher : dist b ≤ dist u = ground arith in
        rw more (
          omega (arith, h.0),
          h.1,
          λ v l f. elim (at_or_before v u l) [
            | inl e ↦ subst (λ x. dist b ≤ dist x) (sym e) higher
            | inr before ↦ h.2 v before f
          ],
        )
  ])
]

min_from-Best :
    (n u : ℕ) (dist : Array ℕ) (visited : Array Bool) (i : Option ℕ)
    → Best u dist visited i
    → Best (u + n) dist visited (min_from n u dist visited i)
unfolding min_from next_best
min_from-Best zero u dist visited i h = subst (λ k. Best k dist visited i) (omega arith) h
min_from-Best (suc n) u dist visited i h =
    let i' = next_best u dist visited i in
    subst (λ k. Best k dist visited (min_from n (suc u) dist visited i')) (omega arith)
      (min_from-Best n (suc u) dist visited i' (next_best-Best u dist visited i h))

-- min_dist gives a place that is not visited and has the least distance of these, or -1 where all are
-- visited.
pub min_dist-Best :
    (n : ℕ) (dist : Array ℕ) (visited : Array Bool) → Best n dist visited (min_dist n dist visited)
unfolding min_dist
min_dist-Best n dist visited =
    subst (λ k. Best k dist visited (min_from n 0 dist visited none)) (omega arith)
      (min_from-Best n 0 dist visited none (λ v l. absurd (omega arith)))

-- Whether the walk through `u` is taken for `w` among the places from `v` to `v + n`.
abbrev pub taken : Array (Array ℕ) → ℕ → ℕ → ℕ → Paths → ℕ → Bool
taken graph u n v s w = (leb v w && ltb w (v + n)) && is_shorter graph u s w

pub shorter-unvisited :
    (graph : Array (Array ℕ)) (u v : ℕ) (s : Paths)
    → is_shorter graph u s v ≡ true
    → (s.visited v ≡ false) × (s.dist u + graph u v < s.dist v) × (0 < graph u v)
unfolding is_shorter
shorter-unvisited graph u v s h = ground arith

pub not_shorter :
    (graph : Array (Array ℕ)) (u v : ℕ) (s : Paths)
    → is_shorter graph u s v ≡ false
    → (s.visited v ≡ true) ⊎ (s.dist v ≤ s.dist u + graph u v) ⊎ (graph u v ≡ 0)
unfolding is_shorter
not_shorter graph u v s h = ground arith

-- What a turn of the inner loop changes.
abbrev Turned : Array (Array ℕ) → ℕ → ℕ → ℕ → Paths → Paths → Type 0
Turned graph u v w s s' =
    (s'.visited ≡ s.visited)
    × (s'.dist u ≡ s.dist u)
    × (s'.dist w ≡ (if w == v && is_shorter graph u s w then s.dist u + graph u w else s.dist w))
    × (s'.prev w ≡ (if w == v && is_shorter graph u s w then some u else s.prev w))

relax_one_lem :
    (graph : Array (Array ℕ)) (u v w : ℕ) (s : Paths)
    → s.visited u ≡ true
    → Turned graph u v w s (relax_one graph u v s)
unfolding relax_one write
relax_one_lem graph u v w s seen = elim (Bool-cases (is_shorter graph u s v)) [
  | inl shorter ↦
      let apart : (u == v) ≡ false = ground (arith, shorter-unvisited graph u v s shorter) in
      rw shorter (elim (Bool-cases (w == v)) [
        | inl at ↦
            let it : w ≡ v = ground arith in
            rw (it, shorter, ==_refl v, apart) (refl, refl, refl, refl)
        | inr off ↦ rw (off, apart) (refl, refl, refl, refl)
      ])
  | inr longer ↦ rw longer (elim (Bool-cases (w == v)) [
    | inl at ↦ let it : w ≡ v = ground arith in rw (it, longer, ==_refl v) (refl, refl, refl, refl)
    | inr off ↦ rw off (refl, refl, refl, refl)
  ])
]

-- Whether a walk is shorter depends on these values only.
same_shorter :
    (graph : Array (Array ℕ)) (u w : ℕ) (s s' : Paths)
    → s'.visited ≡ s.visited
    → s'.dist u ≡ s.dist u
    → s'.dist w ≡ s.dist w
    → is_shorter graph u s' w ≡ is_shorter graph u s w
unfolding is_shorter
same_shorter graph u w s s' e du dw = rw (ap (λ f. f w) e, du, dw) refl

-- What the inner loop changes.
abbrev pub Relaxed : Array (Array ℕ) → ℕ → ℕ → ℕ → ℕ → Paths → Paths → Type 0
Relaxed graph u n v w s s' =
    (s'.visited ≡ s.visited)
    × (s'.dist w ≡ (if taken graph u n v s w then s.dist u + graph u w else s.dist w))
    × (s'.prev w ≡ (if taken graph u n v s w then some u else s.prev w))

pub relax-Relaxed :
    (graph : Array (Array ℕ)) (u n v w : ℕ) (s : Paths)
    → s.visited u ≡ true
    → Relaxed graph u n v w s (relax graph u n v s)
unfolding relax
relax-Relaxed graph u zero v w s seen =
    let none_left : (leb v w && ltb w (v + 0)) ≡ false = ground arith in
    rw none_left (refl, refl, refl)
relax-Relaxed graph u (suc n) v w s seen =
    let s' = relax_one graph u v s in
    let turn = relax_one_lem graph u v w s seen in
    let seen' : s'.visited u ≡ true = ap (λ f. f u) turn.0 ∙ seen in
    let rest = relax-Relaxed graph u n (suc v) w s' seen' in
    elim (Bool-cases (w == v)) [
      | inl at ↦
          let it : w ≡ v = ground arith in
          let now : (leb v w && ltb w (v + suc n)) ≡ true = ground arith in
          let later : (leb (suc v) w && ltb w (suc v + n)) ≡ false = ground arith in
          (
            rest.0 ∙ turn.0,
            ground (arith, rest.1, turn.2, at, now, later),
            ground (arith, rest.2, turn.3, at, now, later),
          )
      | inr off ↦
          let range : (leb (suc v) w && ltb w (suc v + n)) ≡ (leb v w && ltb w (v + suc n)) =
            ground arith in
          let dist_w : s'.dist w ≡ s.dist w = ground (arith, turn.2, off) in
          let prev_w : s'.prev w ≡ s.prev w = ground (arith, turn.3, off) in
          let shorter = same_shorter graph u w s s' turn.0 turn.1 dist_w in
          (
            rest.0 ∙ turn.0,
            rest.1 ∙ rw (range, shorter, turn.1, dist_w) refl,
            rest.2 ∙ rw (range, shorter, prev_w) refl,
          )
    ]
