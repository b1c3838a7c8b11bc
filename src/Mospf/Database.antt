-- ===== src/Mospf/Database.antt =====
-- The link state database of Lab9/11-mopsf/mospf_daemon.c: which updates are taken, and which are sent
-- on.
use ucas_computer_network_la.Prelude.{
  ℕ, ◌+◌, ◌-◌, ◌%◌, ◌^◌, ◌<◌, ◌≤◌, ◌≡◌, ◌≢◌, refl, sym, ap, ◌∙◌, inl, inr, Bool, true, false, not,
  ◌&&◌, List, [], ◌∷◌, ◌++◌, Option, none, some, arith, ltb, ◌==◌, if◌then◌else◌, Bool-cases,
  Option-cases, subst, length, map, keep_if, take,
}
use ucas_computer_network_la.Mospf.{Nbr, Lsa, Iface, DbEntry, Router, LsuPacket}
use ucas_computer_network_la.Mospf.Updates.{
  Search, searched, search_db, renewed, put_first, found_entry, new_entry, forward,
  handle_mospf_lsu, turns, forward_nbrs, forward_all,
}

-- The entry of a router.
abbrev pub find_entry : ℕ → List DbEntry → Option DbEntry
find_entry rid [] = none
find_entry rid (e ∷ es) = if e.rid == rid then some e else find_entry rid es

-- Whether an update is newer than what is known of its author, and what is known after it.
abbrev pub is_newer : LsuPacket → Option DbEntry → Bool
is_newer p none = true
is_newer p (some e) = ltb e.seq p.seq

-- What an update tells of its author; the room is that of the array that is there, or is made.
abbrev pub latest : LsuPacket → Option DbEntry → DbEntry
latest p known = record {
  rid = p.rid;
  seq = p.seq;
  nadv = p.nadv;
  alive = 0;
  room = elim known [ none ↦ p.nadv | some e ↦ e.room ];
  array = p.lsa;
}

-- The update has the number of advertisements that it says, which is no negative `int`, and its TTL is
-- one byte.
abbrev pub IsComplete : LsuPacket → Type 0
IsComplete p = (length p.lsa ≡ p.nadv) × (p.nadv < 2 ^ 31) × (p.ttl < 256)

-- Each neighbour, with the address of its interface.
abbrev beside : Iface → List Nbr → List (ℕ × Nbr)
beside i [] = []
beside i (n ∷ ns) = (i.ip, n) ∷ beside i ns

abbrev pub neighbours : List Iface → List (ℕ × Nbr)
neighbours [] = []
neighbours (i ∷ is) = beside i i.nbr_list ++ neighbours is

-- The copy of an update for a neighbour.
abbrev pub copy_for : LsuPacket → ℕ × Nbr → LsuPacket
copy_for p (own, n) = record {
  saddr = own;
  daddr = n.nbr_ip;
  rid = p.rid;
  seq = p.seq;
  ttl = if p.ttl == 0 then 255 else p.ttl - 1;
  nadv = p.nadv;
  lsa = p.lsa;
}

-- The copies for all neighbours but the author, or none if the update has come to its last hop.
abbrev pub flooded : LsuPacket → List Iface → List LsuPacket
flooded p is =
    if p.ttl == 1
    then []
    else map (copy_for p) (keep_if (λ (own, n). not (n.nbr_id == p.rid)) (neighbours is))

-- Whether the array of the entry has room for the update.
abbrev pub Fits : LsuPacket → Option DbEntry → Type 0
Fits p none = Unit {0}
Fits p (some e) = p.nadv ≤ e.room

abbrev pub NotAmong : ℕ → List DbEntry → Type 0
NotAmong rid [] = Unit {0}
NotAmong rid (e ∷ es) = (e.rid ≢ rid) × NotAmong rid es

-- One entry for each router.
abbrev pub IsKeyed : List DbEntry → Type 0
IsKeyed [] = Unit {0}
IsKeyed (e ∷ es) = NotAmong e.rid es × IsKeyed es

-- The entries with that of the author renewed.
abbrev replaced : LsuPacket → List DbEntry → List DbEntry
replaced p [] = []
replaced p (e ∷ es) =
    let rest = replaced p es in if e.rid == p.rid then renewed p e ∷ es else e ∷ rest

-- What the search finds, by what is known of the author.
abbrev expected : LsuPacket → List DbEntry → Option DbEntry → Search
expected p es none = searched false false es
expected p es (some e) =
    if ltb e.seq p.seq then searched true true (replaced p es) else searched true false es

turns-le : (n : ℕ) → turns n ≤ n
unfolding turns
turns-le n = ground arith

search_db-NotAmong :
    (p : LsuPacket) (es : List DbEntry)
    → NotAmong p.rid es
    → search_db p es ≡ searched false false es
unfolding search_db put_first
search_db-NotAmong p [] h = refl
search_db-NotAmong p (e ∷ es) h =
    let other : (e.rid == p.rid) ≡ false = ground (arith, h.0) in
    rw (other, search_db-NotAmong p es h.1) refl

put_first-expected :
    (p : LsuPacket) (e : DbEntry) (es : List DbEntry) (o : Option DbEntry)
    → (e.rid == p.rid) ≡ false
    → put_first e (expected p es o) ≡ expected p (e ∷ es) o
unfolding put_first
put_first-expected p e es none h = refl
put_first-expected p e es (some f) h = elim (Bool-cases (ltb f.seq p.seq)) [
  | inl new ↦ rw (new, h) refl
  | inr old ↦ rw old refl
]

search_db-expected :
    (p : LsuPacket) (es : List DbEntry)
    → IsKeyed es
    → Fits p (find_entry p.rid es)
    → search_db p es ≡ expected p es (find_entry p.rid es)
unfolding search_db found_entry
search_db-expected p [] k f = refl
search_db-expected p (e ∷ es) k f = elim (Bool-cases (e.rid == p.rid)) [
  | inl same ↦
      let author : e.rid ≡ p.rid = ground arith in
      let alone : NotAmong p.rid es = subst (λ rid. NotAmong rid es) author k.0 in
      let room : p.nadv ≤ e.room =
        subst (λ b. Fits p (if b then some e else find_entry p.rid es)) same f in
      let fits : ltb e.room (turns p.nadv) ≡ false = ground (arith, room, turns-le p.nadv) in
      rw (same, search_db-NotAmong p es alone)
        (elim (Bool-cases (ltb e.seq p.seq)) [
          | inl new ↦ rw (new, fits, same) refl
          | inr old ↦ rw old refl
        ])
  | inr other ↦
      let rest : Fits p (find_entry p.rid es) =
        subst (λ b. Fits p (if b then some e else find_entry p.rid es)) other f in
      rw (other, search_db-expected p es k.1 rest)
        (put_first-expected p e es (find_entry p.rid es) other)
]

find_entry-replaced :
    (p : LsuPacket) (rid : ℕ) (es : List DbEntry) (e : DbEntry)
    → find_entry p.rid es ≡ some e
    → find_entry rid (replaced p es)
      ≡ (if rid == p.rid then some (renewed p e) else find_entry rid es)
unfolding renewed
find_entry-replaced p rid [] e h = cc
find_entry-replaced p rid (x ∷ xs) e h = elim (Bool-cases (x.rid == p.rid)) [
  | inl same ↦
      let it : x ≡ e = ground arith in
      elim (Bool-cases (rid == p.rid)) [
        | inl author ↦
            let here : (x.rid == rid) ≡ true = ground arith in
            rw (same, here, author) (ap some (ap (renewed p) it))
        | inr away ↦
            let not_here : (x.rid == rid) ≡ false = ground arith in rw (same, not_here, away) refl
      ]
  | inr other ↦ ground (arith, find_entry-replaced p rid xs e (ground arith))
]

replaced-NotAmong :
    (p : LsuPacket) (rid : ℕ) (es : List DbEntry) → NotAmong rid es → NotAmong rid (replaced p es)
unfolding renewed
replaced-NotAmong p rid [] h = tt
replaced-NotAmong p rid (x ∷ xs) h = elim (Bool-cases (x.rid == p.rid)) [
  | inl same ↦ rw same h
  | inr other ↦ rw other (h.0, replaced-NotAmong p rid xs h.1)
]

replaced-IsKeyed : (p : LsuPacket) (es : List DbEntry) → IsKeyed es → IsKeyed (replaced p es)
unfolding renewed
replaced-IsKeyed p [] k = tt
replaced-IsKeyed p (x ∷ xs) k = elim (Bool-cases (x.rid == p.rid)) [
  | inl same ↦ rw same k
  | inr other ↦ rw other (replaced-NotAmong p x.rid xs k.0, replaced-IsKeyed p xs k.1)
]

find_entry-appended :
    (p : LsuPacket) (rid : ℕ) (es : List DbEntry)
    → find_entry p.rid es ≡ none
    → find_entry rid (es ++ new_entry p ∷ [])
      ≡ (if rid == p.rid then some (new_entry p) else find_entry rid es)
unfolding new_entry
find_entry-appended p rid [] h = ground arith
find_entry-appended p rid (x ∷ xs) h = ground (arith, find_entry-appended p rid xs)

NotAmong-appended :
    (p : LsuPacket) (rid : ℕ) (es : List DbEntry)
    → NotAmong rid es
    → p.rid ≢ rid
    → NotAmong rid (es ++ new_entry p ∷ [])
unfolding new_entry
NotAmong-appended p rid [] h d = (d, tt)
NotAmong-appended p rid (x ∷ xs) h d = (h.0, NotAmong-appended p rid xs h.1 d)

appended-IsKeyed :
    (p : LsuPacket) (es : List DbEntry)
    → IsKeyed es
    → find_entry p.rid es ≡ none
    → IsKeyed (es ++ new_entry p ∷ [])
appended-IsKeyed p [] k h = (tt, tt)
appended-IsKeyed p (x ∷ xs) k h =
    let other : p.rid ≢ x.rid = ground arith in
    (NotAmong-appended p x.rid xs k.0 other, appended-IsKeyed p xs k.1 (ground arith))

find_entry-rid :
    (rid : ℕ) (es : List DbEntry) (e : DbEntry) → find_entry rid es ≡ some e → e.rid ≡ rid
find_entry-rid rid [] e h = cc
find_entry-rid rid (x ∷ xs) e h = ground (arith, find_entry-rid rid xs e)

take_all : (xs : List Lsa) → take (length xs) xs ≡ xs
take_all [] = refl
take_all (x ∷ xs) = ap (λ t. x ∷ t) (take_all xs)

take-turns : (p : LsuPacket) → IsComplete p → take (turns p.nadv) p.lsa ≡ p.lsa
unfolding turns
take-turns p c =
    let all : (if ltb p.nadv (2 ^ 31) then p.nadv else 0) ≡ length p.lsa = ground (arith, c) in
    rw all (take_all p.lsa)

new_entry-latest : (p : LsuPacket) → IsComplete p → new_entry p ≡ latest p none
unfolding new_entry turns
new_entry-latest p c =
    let small : ltb p.nadv (2 ^ 31) ≡ true = ground (arith, c) in
    let all : take p.nadv p.lsa ≡ p.lsa = rw (sym c.0) (take_all p.lsa) in rw (small, all) refl

renewed-latest :
    (p : LsuPacket) (e : DbEntry) → IsComplete p → e.rid ≡ p.rid → renewed p e ≡ latest p (some e)
unfolding renewed
renewed-latest p e c author = rw (take-turns p c, author) refl

-- The neighbours of one interface, and of all, as the loops of the code walk through them.
module _ (p : LsuPacket) (ttl : ℕ) (left : (if p.ttl == 0 then 255 else p.ttl - 1) ≡ ttl) where
  abbrev away : ℕ × Nbr → Bool
  away (own, n) = not (n.nbr_id == p.rid)

  forward_nbrs-flooded :
      (i : Iface) (ns : List Nbr) (rest : List (ℕ × Nbr))
      → forward_nbrs (record p { ttl = ttl }) i ns ++ map (copy_for p) (keep_if away rest)
        ≡ map (copy_for p) (keep_if away (beside i ns ++ rest))
  unfolding forward_nbrs
  forward_nbrs-flooded i [] rest = refl
  forward_nbrs-flooded i (n ∷ ns) rest = elim (Bool-cases (n.nbr_id == p.rid)) [
    | inl author ↦ rw author (forward_nbrs-flooded i ns rest)
    | inr other ↦
        rw (other, left)
          (ap (λ t. record p { saddr = i.ip; daddr = n.nbr_ip; ttl = ttl } ∷ t)
            (forward_nbrs-flooded i ns rest))
  ]

  forward_all-flooded :
      (is : List Iface)
      → forward_all (record p { ttl = ttl }) is ≡ map (copy_for p) (keep_if away (neighbours is))
  unfolding forward_all
  forward_all-flooded [] = refl
  forward_all-flooded (i ∷ is) =
      ap (λ t. forward_nbrs (record p { ttl = ttl }) i i.nbr_list ++ t) (forward_all-flooded is)
      ∙ forward_nbrs-flooded i i.nbr_list (neighbours is)

forward-flooded : (p : LsuPacket) (is : List Iface) → p.ttl < 256 → forward p is ≡ flooded p is
unfolding forward
forward-flooded p is small =
    let left : (if p.ttl == 0 then 255 else p.ttl - 1) ≡ (p.ttl + 255) % 256 = ground arith in
    elim (Bool-cases (p.ttl == 1)) [
      | inl last ↦
          let over : ltb 0 ((p.ttl + 255) % 256) ≡ false = ground arith in rw (last, over) refl
      | inr more ↦
          let over : ltb 0 ((p.ttl + 255) % 256) ≡ true = ground arith in
          rw (more, over) (forward_all-flooded p ((p.ttl + 255) % 256) left is)
    ]

-- What handling an update should do: keep the newer of it and the entry of its author, leave the other
-- entries, keep one entry for each router, and send the update on if it was newer.
abbrev pub Handled : LsuPacket → Router → Option (Router × List LsuPacket) → Type 0
Handled p r none = ⊥
Handled p r (some (r', sent)) =
    let known = find_entry p.rid r.mospf_db in
    ((rid : ℕ)
      → find_entry rid r'.mospf_db ≡ (
          if rid == p.rid && is_newer p known
          then some (latest p known)
          else find_entry rid r.mospf_db))
    × (sent ≡ (if is_newer p known then flooded p r.iface_list else []))
    × IsKeyed r'.mospf_db

-- An update whose author is not in the database, or whose sequence number is above the one stored,
-- leaves its number and its advertisements as the entry of the author, of age 0; and a copy of it, with
-- one hop less, goes to each neighbour but the author, from the address of the interface, unless its TTL
-- is 1 (a TTL of 0 wraps around to 255). With any other update nothing changes and nothing is sent. The
-- entries of the other routers stay. The database has one entry for each router, the array of the
-- author has room, and the update has as many advertisements as it says, less than 2 ^ 31, and a TTL of
-- one byte.
pub handle_mospf_lsu-Handled :
    (p : LsuPacket) (r : Router)
    → IsComplete p
    → IsKeyed r.mospf_db
    → Fits p (find_entry p.rid r.mospf_db)
    → Handled p r (handle_mospf_lsu p r)
unfolding handle_mospf_lsu
handle_mospf_lsu-Handled p r c k f =
    let sent = forward-flooded p r.iface_list c.2 in
    elim (Option-cases (find_entry p.rid r.mospf_db)) [
      | inl e ↦
          let made = new_entry-latest p c in
          rw (search_db-expected p r.mospf_db k f, handle_mospf_lsu)
            (rw (e, Handled)
              (
                λ rid. rw (e, sym made) (ground (arith, find_entry-appended p rid r.mospf_db e)),
                rw e sent,
                appended-IsKeyed p r.mospf_db k e,
              ))
      | inr (known, e) ↦
          let kept = renewed-latest p known c (find_entry-rid p.rid r.mospf_db known e) in
          rw (search_db-expected p r.mospf_db k f, handle_mospf_lsu)
            (rw e (elim (Bool-cases (ltb known.seq p.seq)) [
              | inl new ↦
                  rw (new, Handled)
                    (
                      λ rid.
                          rw (e, new, sym kept)
                            (ground (arith, find_entry-replaced p rid r.mospf_db known e)),
                      rw (e, new) sent,
                      replaced-IsKeyed p r.mospf_db k,
                    )
              | inr old ↦ rw (old, Handled) (λ rid. rw (e, old) (ground arith), rw (e, old) refl, k)
            ]))
    ]
