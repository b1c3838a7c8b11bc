-- ===== src/ListHead/Insert.antt =====
-- Insertion into a list of Lab15/16-tcp_stack/include/list.h, at its head and at its tail.
use ucas_computer_network_la.Prelude.{
  ℕ, ◌≡◌, ◌≢◌, refl, sym, subst, List, [], ◌∷◌, ◌++◌, arith, true, ◌==◌, if◌then◌else◌, ◌↔◌,
}
use ucas_computer_network_la.ListHead.{
  Memory, set_next, set_prev, list_empty, init_list_head, list_insert, list_add_head, list_add_tail,
}
use ucas_computer_network_la.ListHead.Chains.{
  Chain, NotIn, Distinct, IsList, last, first, Chain-next, Chain-prev, AllSame, Chain-AllSame,
}

pub insert-next :
    (new p n x : ℕ) (h : Memory)
    → (list_insert new p n h x).next ≡ (if x == new then n else if x == p then new else (h x).next)
unfolding list_insert set_next set_prev
insert-next new p n x h = ground arith

pub insert-prev :
    (new p n x : ℕ) (h : Memory)
    → (list_insert new p n h x).prev ≡ (if x == new then p else if x == n then new else (h x).prev)
unfolding list_insert set_next set_prev
insert-prev new p n x h = ground arith

-- Nodes that are none of the three are left alone.
pub insert-AllSame :
    (new p n : ℕ) (h : Memory) (xs : List ℕ)
    → NotIn new xs
    → NotIn p xs
    → NotIn n xs
    → AllSame h (list_insert new p n h) xs
insert-AllSame new p n h [] a b c = tt
insert-AllSame new p n h (x ∷ xs) a b c = (
  ground (arith, insert-next new p n x h, a.0, b.0, c.0),
  ground (arith, insert-prev new p n x h, a.0, b.0, c.0),
  insert-AllSame new p n h xs a.1 b.1 c.1,
)

-- Behind the start of a chain.
insert_first-Chain :
    (h : Memory) (new a b : ℕ) (xs : List ℕ)
    → Chain h a xs b
    → Distinct (a ∷ xs)
    → NotIn b xs
    → NotIn new (a ∷ b ∷ xs)
    → Chain (list_insert new a (first xs b) h) a (new ∷ xs) b
insert_first-Chain h new a b [] c d e f = (
  (ground (arith, insert-next new a b a h, f.0), ground (arith, insert-prev new a b new h)),
  (ground (arith, insert-next new a b new h), ground (arith, insert-prev new a b b h, f.1.0)),
)
insert_first-Chain h new a b (x ∷ xs) c d e f = (
  (ground (arith, insert-next new a x a h, f.0), ground (arith, insert-prev new a x new h)),
  (
    (ground (arith, insert-next new a x new h), ground (arith, insert-prev new a x x h, f.1.1.0)),
    Chain-AllSame h (list_insert new a x h) x b xs c.1
        (ground (arith, insert-next new a x x h, f.1.1.0, d.0.0))
        (ground (arith, insert-prev new a x b h, f.1.0, e.0))
        (insert-AllSame new a x h xs f.1.1.1 d.0.1 d.1.0),
  ),
)

-- Before the end of a chain.
pub NotIn-last : (a y : ℕ) (xs : List ℕ) → NotIn y (a ∷ xs) → y ≢ last a xs
NotIn-last a y [] h = h.0
NotIn-last a y (x ∷ xs) h = NotIn-last x y xs h.1

insert_last-Chain :
    (h : Memory) (new a b : ℕ) (xs : List ℕ)
    → Chain h a xs b
    → Distinct (a ∷ xs)
    → NotIn b xs
    → NotIn new (a ∷ b ∷ xs)
    → Chain (list_insert new (last a xs) b h) a (xs ++ new ∷ []) b
insert_last-Chain h new a b [] c d e f = (
  (ground (arith, insert-next new a b a h, f.0), ground (arith, insert-prev new a b new h)),
  (ground (arith, insert-next new a b new h), ground (arith, insert-prev new a b b h, f.1.0)),
)
insert_last-Chain h new a b (x ∷ xs) c d e f =
    let p = last x xs in
    let other : a ≢ p = NotIn-last x a xs d.0 in
    (
      (
        ground (arith, insert-next new p b a h, f.0, other, c.0.0),
        ground (arith, insert-prev new p b x h, f.1.1.0, e.0, c.0.1),
      ),
      insert_last-Chain h new x b xs c.1 d.1 e.1 (f.1.1.0, (f.1.0, f.1.1.1)),
    )

NotIn-snoc : (a new : ℕ) (xs : List ℕ) → NotIn a xs → a ≢ new → NotIn a (xs ++ new ∷ [])
NotIn-snoc a new [] n d = (d, tt)
NotIn-snoc a new (x ∷ xs) n d = (n.0, NotIn-snoc a new xs n.1 d)

Distinct-snoc :
    (a new : ℕ) (xs : List ℕ)
    → Distinct (a ∷ xs)
    → NotIn new (a ∷ xs)
    → Distinct (a ∷ (xs ++ new ∷ []))
Distinct-snoc a new [] d n = ((λ e. n.0 (sym e), tt), (tt, tt))
Distinct-snoc a new (x ∷ xs) d n =
    (NotIn-snoc a new (x ∷ xs) d.0 (λ e. n.0 (sym e)), Distinct-snoc x new xs d.1 n.1)

-- After init_list_head the list has no node.
pub init_list_head-IsList : (head : ℕ) (h : Memory) → IsList (init_list_head head h) head []
unfolding init_list_head set_next set_prev
init_list_head-IsList head h = record { chain = (ground arith, ground arith); apart = (tt, tt) }

NotIn-own : (new a : ℕ) (xs : List ℕ) → NotIn new (a ∷ xs) → NotIn new (a ∷ a ∷ xs)
NotIn-own new a xs n = (n.0, n)

-- list_add_head puts a node that is not of the list before the others.
pub list_add_head-IsList :
    (h : Memory) (new head : ℕ) (xs : List ℕ)
    → IsList h head xs
    → NotIn new (head ∷ xs)
    → IsList (list_add_head new head h) head (new ∷ xs)
unfolding list_add_head
list_add_head-IsList h new head xs l n = record {
  chain =
      subst (λ n. Chain (list_insert new head n h) head (new ∷ xs) head)
        (sym (Chain-next h head head xs l.chain))
        (insert_first-Chain h new head head xs l.chain l.apart l.apart.0 (NotIn-own new head xs n));
  apart = ((λ e. n.0 (sym e), l.apart.0), (n.1, l.apart.1));
}

-- list_add_tail puts it behind the others.
pub list_add_tail-IsList :
    (h : Memory) (new head : ℕ) (xs : List ℕ)
    → IsList h head xs
    → NotIn new (head ∷ xs)
    → IsList (list_add_tail new head h) head (xs ++ new ∷ [])
unfolding list_add_tail
list_add_tail-IsList h new head xs l n = record {
  chain =
      subst (λ n. Chain (list_insert new n head h) head (xs ++ new ∷ []) head)
        (sym (Chain-prev h head head xs l.chain))
        (insert_last-Chain h new head head xs l.chain l.apart l.apart.0 (NotIn-own new head xs n));
  apart = Distinct-snoc head new xs l.apart n;
}

-- list_empty is true of exactly the lists that have no node.
pub list_empty_iff :
    (h : Memory) (head : ℕ) (xs : List ℕ)
    → IsList h head xs
    → (list_empty head h ≡ true) ↔ (xs ≡ [])
unfolding list_empty
list_empty_iff h head [] l = (λ e. refl, λ e. ground (arith, l.chain.0))
list_empty_iff h head (x ∷ xs) l =
    (λ e. absurd (l.apart.0.0 (ground (arith, e, l.chain.0.0))), λ e. cc e)
