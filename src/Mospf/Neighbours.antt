-- ===== src/Mospf/Neighbours.antt =====
-- The neighbours of a router of Lab9/11-mopsf/mospf_daemon.c: their count, their ages, and what the
-- router announces of them.
use mathlib.Core.List.{append_assoc, append-nil}
use ucas_computer_network_la.Prelude.{
  ℕ, zero, suc, ◌+◌, ◌-◌, ◌*◌, ◌%◌, ◌≡◌, refl, sym, subst, ap, ◌∙◌, inl, inr, false, List, [], ◌∷◌,
  ◌++◌, Option, none, some, arith, ltb, ◌==◌, if◌then◌else◌, Bool-cases, Option-cases, length,
  length-append, map, get_or, set, get_or-set_self, ◌<◌,
}
use ucas_computer_network_la.Mospf.{
  Nbr, Iface, Router, LsuPacket, count_nbr, lsa_of_nbr, lsas_of_iface, lsa_array, sending_mospf_lsu,
  check_nbrs, check_ifaces, checking_nbr, revive, new_nbr, no_iface, handle_mospf_hello, to_all,
  to_nbrs,
}

-- The count of each interface is that of its list.
abbrev pub AllCounted : List Iface → Type 0
AllCounted [] = Unit {0}
AllCounted (i ∷ is) = (i.num_nbr ≡ length i.nbr_list) × AllCounted is

length-map {ℓ κ} :
    {A : Type ℓ} {B : Type κ} (f : A → B) (xs : List A) → length (map f xs) ≡ length xs
length-map f [] = refl
length-map f (x ∷ xs) = ap suc (length-map f xs)

count_nbr-lsa_array : (is : List Iface) → AllCounted is → count_nbr is ≡ length (lsa_array is)
unfolding count_nbr lsa_array lsas_of_iface
count_nbr-lsa_array [] h = refl
count_nbr-lsa_array (i ∷ is) h = elim (Bool-cases (i.num_nbr == 0)) [
  | inl alone ↦ rw alone (omega (arith, count_nbr-lsa_array is h.1))
  | inr others ↦ rw others (
      omega (
        arith,
        h.0,
        count_nbr-lsa_array is h.1,
        length-append (map lsa_of_nbr i.nbr_list) (lsa_array is),
        length-map lsa_of_nbr i.nbr_list,
      ))
]

-- Each packet announces as many networks as it carries.
abbrev pub AllSized : List LsuPacket → Type 0
AllSized [] = Unit {0}
AllSized (p ∷ ps) = (p.nadv ≡ length p.lsa) × AllSized ps

AllSized-append : (ps qs : List LsuPacket) → AllSized ps → AllSized qs → AllSized (ps ++ qs)
AllSized-append [] qs h k = k
AllSized-append (p ∷ ps) qs h k = (h.0, AllSized-append ps qs h.1 k)

to_nbrs-AllSized :
    (r : Router) (i : Iface) (ns : List Nbr) → AllCounted r.iface_list → AllSized (to_nbrs r i ns)
unfolding to_nbrs
to_nbrs-AllSized r i [] h = tt
to_nbrs-AllSized r i (n ∷ ns) h = (count_nbr-lsa_array r.iface_list h, to_nbrs-AllSized r i ns h)

to_all-AllSized : (r : Router) (is : List Iface) → AllCounted r.iface_list → AllSized (to_all r is)
unfolding to_all
to_all-AllSized r [] h = tt
to_all-AllSized r (i ∷ is) h =
    AllSized-append (to_nbrs r i i.nbr_list) (to_all r is) (to_nbrs-AllSized r i i.nbr_list h)
      (to_all-AllSized r is h)

-- The array of an update is filled exactly: each packet sent announces as many networks as it carries,
-- where the counts of the interfaces are those of their lists.
pub sending_mospf_lsu-AllSized :
    (r : Router) → AllCounted r.iface_list → AllSized (sending_mospf_lsu r).1
unfolding sending_mospf_lsu
sending_mospf_lsu-AllSized r h =
    to_all-AllSized (record r { sequence_num = (r.sequence_num + 1) % 65536 }) r.iface_list h

-- The neighbours that a turn of the check leaves, each one second older.
abbrev pub survivors : ℕ → List Nbr → List Nbr
survivors helloint [] = []
survivors helloint (n ∷ ns) =
    let rest = survivors helloint ns in
    if ltb (3 * helloint) ((n.alive + 1) % 256)
    then rest
    else record n { alive = (n.alive + 1) % 256 } ∷ rest

abbrev pub aged : Iface → Iface
aged i = record i {
  num_nbr = length (survivors i.helloint i.nbr_list);
  nbr_list = survivors i.helloint i.nbr_list;
}

-- The interfaces with the count and the neighbours of the middle one.
abbrev around : List Iface → List Iface → Iface → ℕ → List Nbr → List Iface
around before after i n ns = before ++ record i { num_nbr = n; nbr_list = ns } ∷ after

check_nbrs_lem :
    (before after : List Iface) (i : Iface) (kept ns : List Nbr) (r : Router)
    → i.num_nbr ≡ length kept + length ns
    → (check_nbrs before after i kept ns r).0.iface_list
      ≡ around before after i
          (length (kept ++ survivors i.helloint ns))
          (kept ++ survivors i.helloint ns)
unfolding check_nbrs sending_mospf_lsu
check_nbrs_lem before after i kept [] r h =
    rw (append-nil kept) (ap (λ n. around before after i n kept) (omega (arith, h)))
check_nbrs_lem before after i kept (n ∷ ns) r h =
    let n' : Nbr = record n { alive = (n.alive + 1) % 256 } in
    elim (Bool-cases (ltb (3 * i.helloint) ((n.alive + 1) % 256))) [
      | inl gone ↦
          let i' : Iface = record i { num_nbr = i.num_nbr - 1 } in
          let left = record r {
            iface_list = before ++ record i' { nbr_list = kept ++ ns } ∷ after;
          } in
          rw (gone, check_nbrs)
            (check_nbrs_lem before after i' kept ns (sending_mospf_lsu left).0 (omega (arith, h)))
      | inr stays ↦
          rw (stays, check_nbrs)
            (check_nbrs_lem before after i (kept ++ n' ∷ []) ns r
                (omega (arith, h, length-append kept (n' ∷ [])))
              ∙ ap (λ all. around before after i (length all) all)
                  (append_assoc kept (n' ∷ []) (survivors i.helloint ns)))
    ]

get_or-middle :
    {A : Type 0} (before after : List A) (x d : A)
    → get_or (before ++ x ∷ after) (length before) d ≡ x
get_or-middle [] after x d = refl
get_or-middle (b ∷ before) after x d = get_or-middle before after x d

check_ifaces_lem :
    (before rest : List Iface) (r : Router)
    → r.iface_list ≡ before ++ rest
    → AllCounted rest
    → (check_ifaces before rest r).0.iface_list ≡ before ++ map aged rest
unfolding check_ifaces
check_ifaces_lem before [] r e h = e
check_ifaces_lem before (i ∷ is) r e h =
    let r' = (check_nbrs before is i [] i.nbr_list r).0 in
    let first : r'.iface_list ≡ before ++ aged i ∷ is =
      check_nbrs_lem before is i [] i.nbr_list r (omega (arith, h.0)) in
    let here : get_or r'.iface_list (length before) i ≡ aged i =
      ap (λ all. get_or all (length before) i) first ∙ get_or-middle before is (aged i) i in
    subst
      (λ x. (check_ifaces (before ++ x ∷ []) is r').0.iface_list ≡ before ++ aged i ∷ map aged is)
      (sym here)
      (check_ifaces_lem (before ++ aged i ∷ []) is r'
          (first ∙ sym (append_assoc before (aged i ∷ []) is)) h.1
        ∙ append_assoc before (aged i ∷ []) (map aged is))

-- A turn of the check makes every neighbour a second older and drops exactly those whose age then
-- exceeds three hello intervals; the counts are those of the lists again.
pub checking_nbr_lem :
    (r : Router) → AllCounted r.iface_list → (checking_nbr r).0.iface_list ≡ map aged r.iface_list
unfolding checking_nbr
checking_nbr_lem r h = check_ifaces_lem [] r.iface_list r refl h

-- The age of the first neighbour of that id.
abbrev pub age_of : ℕ → List Nbr → Option ℕ
age_of rid [] = none
age_of rid (n ∷ ns) = if n.nbr_id == rid then some n.alive else age_of rid ns

-- What the search of a hello should find.
abbrev Revived : ℕ → List Nbr → Option (List Nbr) → Type 0
Revived rid ns none = age_of rid ns ≡ none
Revived rid ns (some ns') =
    (length ns' ≡ length ns)
    × ((other : ℕ) → age_of other ns' ≡ (if other == rid then some 0 else age_of other ns))

Revived-cons :
    (rid : ℕ) (n : Nbr) (ns : List Nbr) (o : Option (List Nbr))
    → (n.nbr_id == rid) ≡ false
    → Revived rid ns o
    → Revived rid (n ∷ ns) (elim o [ none ↦ none | some ns' ↦ some (n ∷ ns') ])
Revived-cons rid n ns none away h = rw away h
Revived-cons rid n ns (some ns') away h = (ap suc h.0, λ other. ground (arith, h.1 other))

revive-Revived : (rid : ℕ) (ns : List Nbr) → Revived rid ns (revive rid ns)
unfolding revive
revive-Revived rid [] = refl
revive-Revived rid (n ∷ ns) = elim (Bool-cases (n.nbr_id == rid)) [
  | inl it ↦ rw it (refl, λ other. ground arith)
  | inr away ↦ rw away (Revived-cons rid n ns (revive rid ns) away (revive-Revived rid ns))
]

age_of-appended :
    (rid saddr mask other : ℕ) (ns : List Nbr)
    → age_of rid ns ≡ none
    → age_of other (ns ++ new_nbr rid saddr mask ∷ [])
      ≡ (if other == rid then some 0 else age_of other ns)
unfolding new_nbr
age_of-appended rid saddr mask other [] h = ground arith
age_of-appended rid saddr mask other (n ∷ ns) h =
    ground (arith, age_of-appended rid saddr mask other ns)

set-AllCounted :
    (is : List Iface) (k : ℕ) (i : Iface)
    → AllCounted is
    → i.num_nbr ≡ length i.nbr_list
    → AllCounted (set is k i)
set-AllCounted [] k i h e = tt
set-AllCounted (x ∷ xs) zero i h e = (e, h.1)
set-AllCounted (x ∷ xs) (suc k) i h e = (h.0, set-AllCounted xs k i h.1 e)

get_or-AllCounted :
    (is : List Iface) (k : ℕ)
    → AllCounted is
    → (get_or is k no_iface).num_nbr ≡ length (get_or is k no_iface).nbr_list
get_or-AllCounted [] k h = refl
get_or-AllCounted (x ∷ xs) zero h = h.0
get_or-AllCounted (x ∷ xs) (suc k) h = get_or-AllCounted xs k h.1

-- After a hello its sender is a neighbour on the interface with age 0, the ages of the others are as
-- before, and the counts are those of the lists. The interface is one of the router's.
pub handle_mospf_hello_lem :
    (k rid saddr mask other : ℕ) (r : Router)
    → k < length r.iface_list
    → AllCounted r.iface_list
    → let r' = (handle_mospf_hello k rid saddr mask r).0 in
      (age_of other (get_or r'.iface_list k no_iface).nbr_list
        ≡ (if other == rid then some 0 else age_of other (get_or r.iface_list k no_iface).nbr_list))
      × AllCounted r'.iface_list
unfolding handle_mospf_hello sending_mospf_lsu
handle_mospf_hello_lem k rid saddr mask other r inside h =
    let i = get_or r.iface_list k no_iface in
    let spec = revive-Revived rid i.nbr_list in
    let counted = get_or-AllCounted r.iface_list k h in
    elim (Option-cases (revive rid i.nbr_list)) [
      | inl e ↦
          let i' : Iface = record i {
            num_nbr = i.num_nbr + 1;
            nbr_list = i.nbr_list ++ new_nbr rid saddr mask ∷ [];
          } in
          let fresh : age_of rid i.nbr_list ≡ none = subst (λ o. Revived rid i.nbr_list o) e spec in
          rw (e, handle_mospf_hello, get_or-set_self r.iface_list k i' no_iface inside)
            (
              age_of-appended rid saddr mask other i.nbr_list fresh,
              set-AllCounted r.iface_list k i' h
                  (omega (arith, counted, length-append i.nbr_list (new_nbr rid saddr mask ∷ []))),
            )
      | inr (ns', e) ↦
          let i' : Iface = record i { nbr_list = ns' } in
          let found : Revived rid i.nbr_list (some ns') =
            subst (λ o. Revived rid i.nbr_list o) e spec in
          rw (e, handle_mospf_hello, get_or-set_self r.iface_list k i' no_iface inside)
            (found.1 other, set-AllCounted r.iface_list k i' h (omega (arith, counted, found.0)))
    ]
