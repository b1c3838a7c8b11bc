-- ===== src/ListHead/Move.antt =====
-- Operations on one list leave the others alone, and an entry moves from one list to another.
use ucas_computer_network_la.Prelude.{ℕ, ◌≡◌, ◌≢◌, sym, subst, List, [], ◌∷◌, ◌++◌, arith}
use ucas_computer_network_la.ListHead.{
  Memory, list_add_head, list_insert, list_add_tail, list_delete_entry,
}
use ucas_computer_network_la.ListHead.Chains.{
  NotIn, Distinct, IsList, last, first, Chain-prev, AllSame, Chain-AllSame,
}
use ucas_computer_network_la.ListHead.Insert.{
  insert-next, insert-prev, insert-AllSame, insert-next, insert-prev, NotIn-last,
  list_add_tail-IsList,
}
use ucas_computer_network_la.ListHead.Delete.{
  delete-next, delete-prev, delete-AllSame, Chain-middle, list_delete_entry-IsList,
}

-- No node of the first list is one of the second.
abbrev pub Apart : List ℕ → List ℕ → Type 0
Apart [] ys = Unit {0}
Apart (x ∷ xs) ys = NotIn x ys × Apart xs ys

IsList-AllSame :
    (h h' : Memory) (head : ℕ) (xs : List ℕ)
    → IsList h head xs
    → AllSame h h' (head ∷ xs)
    → IsList h' head xs
IsList-AllSame h h' head xs l s = record {
  chain = Chain-AllSame h h' head head xs l.chain s.0 s.1 s.2;
  apart = l.apart;
}

Apart-front : (a e : ℕ) (xs ys zs : List ℕ) → Apart (a ∷ (xs ++ e ∷ ys)) zs → NotIn (last a xs) zs
Apart-front a e [] ys zs p = p.0
Apart-front a e (x ∷ xs) ys zs p = Apart-front x e xs ys zs p.1

Apart-back :
    (b e : ℕ) (xs ys zs : List ℕ) → Apart (xs ++ e ∷ ys) zs → NotIn b zs → NotIn (first ys b) zs
Apart-back b e [] [] zs p n = n
Apart-back b e [] (y ∷ ys) zs p n = p.1.0
Apart-back b e (x ∷ xs) ys zs p n = Apart-back b e xs ys zs p.1 n

Apart-middle : (e : ℕ) (xs ys zs : List ℕ) → Apart (xs ++ e ∷ ys) zs → NotIn e zs
Apart-middle e [] ys zs p = p.0
Apart-middle e (x ∷ xs) ys zs p = Apart-middle e xs ys zs p.1

Apart-less : (e : ℕ) (xs ys zs : List ℕ) → Apart (xs ++ e ∷ ys) zs → Apart (xs ++ ys) zs
Apart-less e [] ys zs p = p.1
Apart-less e (x ∷ xs) ys zs p = (p.0, Apart-less e xs ys zs p.1)

Apart-first : (a : ℕ) (xs zs : List ℕ) → Apart xs (a ∷ zs) → NotIn a xs
Apart-first a [] zs p = tt
Apart-first a (x ∷ xs) zs p = ((λ e. p.0.0 (sym e)), Apart-first a xs zs p.1)

Apart-last : (a : ℕ) (xs zs : List ℕ) → Apart xs (a ∷ zs) → NotIn (last a zs) xs
Apart-last a [] zs p = tt
Apart-last a (x ∷ xs) zs p = ((λ e. NotIn-last a x zs p.0 (sym e)), Apart-last a xs zs p.1)

NotIn-taken : (y e : ℕ) (xs ys : List ℕ) → NotIn y (xs ++ e ∷ ys) → e ≢ y
NotIn-taken y e [] ys n = λ q. n.0 (sym q)
NotIn-taken y e (x ∷ xs) ys n = NotIn-taken y e xs ys n.1

Distinct-taken : (e : ℕ) (xs ys : List ℕ) → Distinct (xs ++ e ∷ ys) → NotIn e (xs ++ ys)
Distinct-taken e [] ys d = d.0
Distinct-taken e (x ∷ xs) ys d = (NotIn-taken x e xs ys d.0, Distinct-taken e xs ys d.1)

-- A removal leaves a list alone whose nodes are none of the first's.
pub list_delete_entry-other :
    (h : Memory) (head e other : ℕ) (xs ys zs : List ℕ)
    → IsList h head (xs ++ e ∷ ys)
    → IsList h other zs
    → Apart (head ∷ (xs ++ e ∷ ys)) (other ∷ zs)
    → IsList (list_delete_entry e h) other zs
list_delete_entry-other h head e other xs ys zs l m p =
    let c = Chain-middle h head head e xs ys l.chain in
    IsList-AllSame h (list_delete_entry e h) other zs m (
      delete-AllSame e (last head xs) (first ys head) h (other ∷ zs) c.0 c.1
        (Apart-front head e xs ys (other ∷ zs) p) (Apart-back head e xs ys (other ∷ zs) p.1 p.0))

-- So does an insertion.
pub list_add_tail-other :
    (h : Memory) (head new other : ℕ) (xs zs : List ℕ)
    → IsList h head zs
    → IsList h other xs
    → Apart (other ∷ xs) (head ∷ zs)
    → NotIn new (other ∷ xs)
    → IsList (list_add_tail new head h) other xs
unfolding list_add_tail
list_add_tail-other h head new other xs zs l m p n =
    IsList-AllSame h (list_insert new (h head).prev head h) other xs m (
      insert-AllSame new (h head).prev head h (other ∷ xs) n
        (subst (λ q. NotIn q (other ∷ xs)) (sym (Chain-prev h head head zs l.chain))
          (Apart-last head (other ∷ xs) zs p))
        (Apart-first head (other ∷ xs) zs p))

-- An entry that is deleted from one list and added to the tail of another, as an established socket
-- moves from the listen queue to the accept queue, leaves the first list without it, in its order, and
-- is the last of the second; the two lists had no node in common.
pub list_delete_entry-list_add_tail :
    (h : Memory) (from to e : ℕ) (xs ys zs : List ℕ)
    → IsList h from (xs ++ e ∷ ys)
    → IsList h to zs
    → Apart (from ∷ (xs ++ e ∷ ys)) (to ∷ zs)
    → IsList (list_add_tail e to (list_delete_entry e h)) from (xs ++ ys)
      × IsList (list_add_tail e to (list_delete_entry e h)) to (zs ++ e ∷ [])
list_delete_entry-list_add_tail h from to e xs ys zs l m p =
    let l' = list_delete_entry-IsList h from e xs ys l in
    let m' = list_delete_entry-other h from e to xs ys zs l m p in
    (
      list_add_tail-other (list_delete_entry e h) to e from (xs ++ ys) zs m' l'
          (p.0, Apart-less e xs ys (to ∷ zs) p.1)
          (NotIn-taken from e xs ys l.apart.0, Distinct-taken e xs ys l.apart.1),
      list_add_tail-IsList (list_delete_entry e h) e to zs m' (Apart-middle e xs ys (to ∷ zs) p.1),
    )

-- A node that is deleted, and deleted again once another has come into its place, takes the other out
-- of the list: its pointers still name the old neighbours.
pub list_delete_entry-stale :
    (h : Memory) (head e new : ℕ)
    → IsList h head (e ∷ [])
    → NotIn new (head ∷ e ∷ [])
    → IsList (list_delete_entry e (list_add_head new head (list_delete_entry e h))) head []
unfolding list_add_head
list_delete_entry-stale h head e new l n =
    let h1 = list_delete_entry e h in
    let one = list_delete_entry-IsList h head e [] [] l in
    let h2 = list_insert new head (h1 head).next h1 in
    let d : e ≢ head = λ q. l.apart.0.0 (sym q) in
    let next1 : (h1 e).next ≡ head =
      ground (arith, delete-next e e h, d, l.chain.0.1, l.chain.1.0) in
    let prev1 : (h1 e).prev ≡ head =
      ground (arith, delete-prev e e h, d, l.chain.0.1, l.chain.1.0) in
    let empty : (h1 head).next ≡ head = one.chain.0 in
    let next2 : (h2 e).next ≡ head =
      ground (arith, insert-next new head (h1 head).next e h1, n.1.0, d, next1) in
    let prev2 : (h2 e).prev ≡ head =
      ground (arith, insert-prev new head (h1 head).next e h1, n.1.0, d, prev1, empty) in
    record {
      chain = (
        ground (arith, delete-next e head h2, prev2, next2),
        ground (arith, delete-prev e head h2, prev2, next2),
      );
      apart = (tt, tt);
    }
