-- ===== src/ListHead/Loop.antt =====
-- The loops over a list of Lab15/16-tcp_stack/include/list.h.
use ucas_computer_network_la.Prelude.{
  ℕ, zero, suc, ◌≡◌, ◌≢◌, sym, subst, List, [], ◌∷◌, ◌++◌, arith, if◌then◌else◌, length, keep_if,
  Bool, not, true, Option, none, some, ◌≤◌, Bool-cases, inl, inr,
}
use ucas_computer_network_la.ListHead.{
  Memory, visit, list_for_each_entry, delete_from, list_delete_if, list_delete_entry, list_add_head,
  list_empty, list_insert,
}
use ucas_computer_network_la.ListHead.Chains.{Chain, NotIn, IsList, first, Chain-next}
use ucas_computer_network_la.ListHead.Insert.{insert-next}
use ucas_computer_network_la.ListHead.Delete.{list_delete_entry-IsList, Chain-middle}
use mathlib.Core.List.{append_assoc}

visit-Chain :
    (f head a : ℕ) (xs : List ℕ) (h : Memory)
    → Chain h a xs head
    → NotIn head xs
    → length xs ≤ f
    → visit f head (h a).next h ≡ some xs
unfolding visit
visit-Chain zero head a [] h c n l = ground (arith, c.0)
visit-Chain (suc f) head a [] h c n l = ground (arith, c.0)
visit-Chain zero head a (x ∷ xs) h c n l = absurd (omega (arith, l))
visit-Chain (suc f) head a (x ∷ xs) h c n l =
    let ih = visit-Chain f head x xs h c.1 n.1 (omega (arith, l)) in ground (arith, c.0.0, n.0, ih)

-- The loop comes to an end and visits the nodes of the list, each once and in order.
pub list_for_each_entry_lem :
    (f head : ℕ) (xs : List ℕ) (h : Memory)
    → IsList h head xs
    → length xs ≤ f
    → list_for_each_entry f head h ≡ some xs
unfolding list_for_each_entry
list_for_each_entry_lem f head xs h l k = visit-Chain f head head xs h l.chain l.apart.0 k

-- A run of the deleting loop that ended with the nodes `xs`.
abbrev Kept : ℕ → List ℕ → Option Memory → Type 0
Kept head xs r = (h' : Memory) × (r ≡ some h') × IsList h' head xs

Kept-assoc :
    (head x : ℕ) (xs ys : List ℕ) (r : Option Memory)
    → Kept head ((xs ++ x ∷ []) ++ ys) r
    → Kept head (xs ++ x ∷ ys) r
Kept-assoc head x xs ys r k = subst (λ l. Kept head l r) (append_assoc xs (x ∷ []) ys) k

NotIn-middle : (y e : ℕ) (xs ys : List ℕ) → NotIn y (xs ++ e ∷ ys) → y ≢ e
NotIn-middle y e [] ys n = n.0
NotIn-middle y e (x ∷ xs) ys n = NotIn-middle y e xs ys n.1

-- A turn of the loop deletes the node that passes the test, and leaves the memory otherwise.
delete_from-turn :
    (f head x q : ℕ) (test : ℕ → Bool) (h h' : Memory)
    → x ≢ head
    → (h x).next ≡ q
    → (if test x then list_delete_entry x h else h) ≡ h'
    → delete_from (suc f) test head x (h x).next h ≡ delete_from f test head q (h' q).next h'
unfolding delete_from
delete_from-turn f head x q test h h' d n e = rw (n, e) (ground (arith, d))

-- `pos` is the first node that is left, and `q` the one that its `next` names.
delete_from-Kept :
    (f head : ℕ) (test : ℕ → Bool) (front xs : List ℕ) (h : Memory)
    → IsList h head (front ++ xs)
    → length xs ≤ f
    → Kept head
        (front ++ keep_if (λ x. not (test x)) xs)
        (delete_from f test head (first xs head) (h (first xs head)).next h)
unfolding delete_from
delete_from-Kept zero head test front [] h l k = (h, ground arith, l)
delete_from-Kept (suc f) head test front [] h l k = (h, ground arith, l)
delete_from-Kept zero head test front (x ∷ xs) h l k = absurd (omega (arith, k))
delete_from-Kept (suc f) head test front (x ∷ xs) h l k =
    let n = (Chain-middle h head head x front xs l.chain).1 in
    let d : x ≢ head = λ e. NotIn-middle head x front xs l.apart.0 (sym e) in
    let kept = keep_if (λ y. not (test y)) xs in
    elim (Bool-cases (test x)) [
      | inl e ↦
          (let turn =
              delete_from-turn f head x (first xs head) test h (list_delete_entry x h) d n
                (ground (arith, e)) in
            let ih =
              delete_from-Kept f head test front xs (list_delete_entry x h)
                (list_delete_entry-IsList h head x front xs l) (omega (arith, k)) in
            subst
              (λ b.
                Kept head (front ++ (if not b then x ∷ kept else kept))
                  (delete_from (suc f) test head x (h x).next h))
              (sym e) (subst (Kept head (front ++ kept)) (sym turn) ih))
      | inr e ↦
          (let turn = delete_from-turn f head x (first xs head) test h h d n (ground (arith, e)) in
            let ih =
              delete_from-Kept f head test (front ++ x ∷ []) xs h
                (subst (IsList h head) (sym (append_assoc front (x ∷ []) xs)) l)
                (omega (arith, k)) in
            subst
              (λ b.
                Kept head (front ++ (if not b then x ∷ kept else kept))
                  (delete_from (suc f) test head x (h x).next h))
              (sym e)
              (subst (Kept head (front ++ x ∷ kept)) (sym turn)
                (Kept-assoc head x front kept _ ih)))
    ]

-- The loop that deletes as it goes leaves exactly the nodes that do not pass the test.
pub list_delete_if_lem :
    (f head : ℕ) (test : ℕ → Bool) (xs : List ℕ) (h : Memory)
    → IsList h head xs
    → length xs ≤ f
    → (h' : Memory) × (list_delete_if f test head h ≡ some h')
      × IsList h' head (keep_if (λ x. not (test x)) xs)
unfolding list_delete_if
list_delete_if_lem f head test xs h l k =
    subst (λ q. Kept head (keep_if (λ x. not (test x)) xs) (delete_from f test head q (h q).next h))
      (sym (Chain-next h head head xs l.chain)) (delete_from-Kept f head test [] xs h l k)

visit-stuck : (f head x : ℕ) (h : Memory) → (h x).next ≡ x → x ≢ head → visit f head x h ≡ none
unfolding visit
visit-stuck zero head x h e d = ground (arith, d)
visit-stuck (suc f) head x h e d = ground (arith, e, d, visit-stuck f head x h e d)

list_insert-twice :
    (f new head : ℕ) (h : Memory)
    → new ≢ head
    → (visit f head (list_insert new head new h head).next (list_insert new head new h) ≡ none)
      × (list_empty new (list_insert new head new h) ≡ true)
unfolding list_empty
list_insert-twice f new head h d =
    let h' = list_insert new head new h in
    let start : (h' head).next ≡ new = ground (arith, d, insert-next new head new head h) in
    let own : (h' new).next ≡ new = ground (arith, insert-next new head new new h) in
    (
      subst (λ n. visit f head n h' ≡ none) (sym start) (visit-stuck f head new h' own d),
      ground (arith, own),
    )

-- A node that is put in front of a list a second time is its own successor: a loop over the list
-- never ends, however many turns it is given, and the node itself counts as one of no list.
pub list_add_head-twice :
    (f new head : ℕ) (h : Memory)
    → new ≢ head
    → (list_for_each_entry f head (list_add_head new head (list_add_head new head h)) ≡ none)
      × (list_empty new (list_add_head new head (list_add_head new head h)) ≡ true)
unfolding list_for_each_entry list_add_head
list_add_head-twice f new head h d =
    let h1 = list_insert new head (h head).next h in
    let start : (h1 head).next ≡ new =
      ground (arith, d, insert-next new head (h head).next head h) in
    subst
      (λ n.
        (visit f head (list_insert new head n h1 head).next (list_insert new head n h1) ≡ none)
        × (list_empty new (list_insert new head n h1) ≡ true))
      (sym start) (list_insert-twice f new head h1 d)
