-- ===== src/Route/Longest.antt =====
-- longest_prefix_match of Lab10/12-nat/ip_base.c selects the entry that it should.
use ucas_computer_network_la.Prelude.{
  ℕ, ◌≤◌, ◌≡◌, refl, ◌⊎◌, inl, inr, true, false, ◌&&◌, List, [], ◌∷◌, Option, none, some, arith,
  if◌then◌else◌, Bool-cases, subst,
}
use ucas_computer_network_la.Route.{
  RtEntry, route_covers, longer_than, select_from, longest_prefix_match,
}

-- Each entry that covers the destination has at most the mask `m`.
abbrev pub MasksUpTo : ℕ → ℕ → List RtEntry → Type 0
MasksUpTo m dst [] = Unit {0}
MasksUpTo m dst (e ∷ es) = (route_covers dst e ≡ true → e.mask ≤ m) × MasksUpTo m dst es

abbrev pub NoneCovers : ℕ → List RtEntry → Type 0
NoneCovers dst [] = Unit {0}
NoneCovers dst (e ∷ es) = (route_covers dst e ≡ false) × NoneCovers dst es

-- The entry stands in the list.
abbrev pub Stands : RtEntry → List RtEntry → Type 0
Stands e [] = ⊥
Stands e (x ∷ xs) = (x ≡ e) ⊎ Stands e xs

abbrev UpTo : ℕ → Option RtEntry → Type 0
UpTo m none = Unit {0}
UpTo m (some s) = s.mask ≤ m

-- One turn of the loop.
abbrev next : ℕ → Option RtEntry → RtEntry → Option RtEntry
next dst sel e = if route_covers dst e && longer_than sel e then some e else sel

next-UpTo :
    (m dst : ℕ) (sel : Option RtEntry) (e : RtEntry)
    → UpTo m (next dst sel e)
    → UpTo m sel × (route_covers dst e ≡ true → e.mask ≤ m)
unfolding longer_than
next-UpTo m dst none e h = ground arith
next-UpTo m dst (some s) e h = ground arith

next-some :
    (dst : ℕ) (sel : Option RtEntry) (e r : RtEntry)
    → next dst sel e ≡ some r
    → (sel ≡ some r) ⊎ ((e ≡ r) × (route_covers dst r ≡ true))
unfolding longer_than
next-some dst sel e r h = elim (Bool-cases (route_covers dst e && longer_than sel e)) [
  | inl won ↦
      let same : e ≡ r = ground arith in
      inr (same, subst (λ x. route_covers dst x ≡ true) same (ground arith))
  | inr kept ↦ inl (ground arith)
]

next-none :
    (dst : ℕ) (sel : Option RtEntry) (e : RtEntry)
    → next dst sel e ≡ none
    → (sel ≡ none) × (route_covers dst e ≡ false)
unfolding longer_than
next-none dst none e h = ground arith
next-none dst (some s) e h = ground arith

select_from-max :
    (dst : ℕ) (sel : Option RtEntry) (es : List RtEntry) (r : RtEntry)
    → select_from dst sel es ≡ some r
    → UpTo r.mask sel × MasksUpTo r.mask dst es
unfolding select_from
select_from-max dst none [] r h = cc
select_from-max dst (some s) [] r h = ground arith
select_from-max dst sel (e ∷ es) r h =
    let rest = select_from-max dst (next dst sel e) es r h in
    let here = next-UpTo r.mask dst sel e rest.0 in (here.0, (here.1, rest.1))

select_from-Stands :
    (dst : ℕ) (sel : Option RtEntry) (es : List RtEntry) (r : RtEntry)
    → select_from dst sel es ≡ some r
    → (sel ≡ some r) ⊎ (Stands r es × (route_covers dst r ≡ true))
unfolding select_from
select_from-Stands dst sel [] r h = inl h
select_from-Stands dst sel (e ∷ es) r h = elim (select_from-Stands dst (next dst sel e) es r h) [
  | inl chosen ↦ elim (next-some dst sel e r chosen) [
    | inl before ↦ inl before
    | inr (same, covered) ↦ inr (inl same, covered)
  ]
  | inr (later, covered) ↦ inr (inr later, covered)
]

select_from-none :
    (dst : ℕ) (sel : Option RtEntry) (es : List RtEntry)
    → select_from dst sel es ≡ none
    → (sel ≡ none) × NoneCovers dst es
unfolding select_from
select_from-none dst sel [] h = (h, tt)
select_from-none dst sel (e ∷ es) h =
    let rest = select_from-none dst (next dst sel e) es h in
    let here = next-none dst sel e rest.0 in (here.0, (here.1, rest.1))

-- What the result should be: an entry of the table that covers the destination and has the largest
-- mask of those that do, or none where no entry covers it.
abbrev pub Longest : ℕ → List RtEntry → Option RtEntry → Type 0
Longest dst es none = NoneCovers dst es
Longest dst es (some r) = Stands r es × (route_covers dst r ≡ true) × MasksUpTo r.mask dst es

-- The table is searched for the covering entry with the largest mask; a null result means that no
-- entry covers the destination.
pub longest_prefix_match-Longest :
    (dst : ℕ) (rtable : List RtEntry) → Longest dst rtable (longest_prefix_match dst rtable)
unfolding longest_prefix_match
longest_prefix_match-Longest dst rtable = go (select_from dst none rtable) refl
  where
    go : (o : Option RtEntry) → select_from dst none rtable ≡ o → Longest dst rtable o
    go none e = (select_from-none dst none rtable e).1
    go (some r) e = elim (select_from-Stands dst none rtable r e) [
      | inl never ↦ cc
      | inr (there, covered) ↦ (there, covered, (select_from-max dst none rtable r e).1)
    ]
