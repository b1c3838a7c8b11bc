-- ===== src/ListHead/Delete.antt =====
-- Removal from a list of Lab15/16-tcp_stack/include/list.h.
use ucas_computer_network_la.Prelude.{
  ℕ, ◌≡◌, ◌≢◌, sym, List, [], ◌∷◌, ◌++◌, arith, ◌==◌, if◌then◌else◌,
}
use ucas_computer_network_la.ListHead.{Memory, set_next, set_prev, list_delete_entry}
use ucas_computer_network_la.ListHead.Chains.{
  Chain, NotIn, Distinct, IsList, last, first, Chain-next, AllSame, Chain-AllSame,
}

pub delete-next :
    (e x : ℕ) (h : Memory)
    → (list_delete_entry e h x).next ≡ (if x == (h e).prev then (h e).next else (h x).next)
unfolding list_delete_entry set_next set_prev
delete-next e x h = ground arith

pub delete-prev :
    (e x : ℕ) (h : Memory)
    → (list_delete_entry e h x).prev ≡ (if x == (h e).next then (h e).prev else (h x).prev)
unfolding list_delete_entry set_next set_prev
delete-prev e x h = ground arith

-- Only the two neighbours of the entry are written.
pub delete-AllSame :
    (e p n : ℕ) (h : Memory) (xs : List ℕ)
    → (h e).prev ≡ p
    → (h e).next ≡ n
    → NotIn p xs
    → NotIn n xs
    → AllSame h (list_delete_entry e h) xs
delete-AllSame e p n h [] i j k l = tt
delete-AllSame e p n h (x ∷ xs) i j k l = (
  ground (arith, delete-next e x h, i, k.0),
  ground (arith, delete-prev e x h, j, l.0),
  delete-AllSame e p n h xs i j k.1 l.1,
)

-- The neighbours of an entry in the middle of a chain.
pub Chain-middle :
    (h : Memory) (a b e : ℕ) (xs ys : List ℕ)
    → Chain h a (xs ++ e ∷ ys) b
    → ((h e).prev ≡ last a xs) × ((h e).next ≡ first ys b)
Chain-middle h a b e [] ys c = (c.0.1, Chain-next h e b ys c.1)
Chain-middle h a b e (x ∷ xs) ys c = Chain-middle h x b e xs ys c.1

NotIn-first : (y b e : ℕ) (xs ys : List ℕ) → NotIn y (xs ++ e ∷ ys) → y ≢ b → y ≢ first ys b
NotIn-first y b e [] [] n d = d
NotIn-first y b e [] (z ∷ ys) n d = n.1.0
NotIn-first y b e (x ∷ xs) ys n d = NotIn-first y b e xs ys n.1 d

NotIn-front : (y a e : ℕ) (xs ys : List ℕ) → NotIn y (a ∷ (xs ++ e ∷ ys)) → y ≢ last a xs
NotIn-front y a e [] ys n = n.0
NotIn-front y a e (x ∷ xs) ys n = NotIn-front y x e xs ys n.1

delete_first-Chain :
    (h : Memory) (a b e : ℕ) (ys : List ℕ)
    → Chain h a (e ∷ ys) b
    → Distinct (a ∷ e ∷ ys)
    → NotIn b (e ∷ ys)
    → Chain (list_delete_entry e h) a ys b
delete_first-Chain h a b e [] c d n = (
  ground (arith, delete-next e a h, c.0.1, c.1.0),
  ground (arith, delete-prev e b h, c.0.1, c.1.0),
)
delete_first-Chain h a b e (y ∷ ys) c d n = (
  (
    ground (arith, delete-next e a h, c.0.1, c.1.0.0),
    ground (arith, delete-prev e y h, c.0.1, c.1.0.0),
  ),
  Chain-AllSame h (list_delete_entry e h) y b ys c.1.1
      (ground (arith, delete-next e y h, c.0.1, d.0.1.0))
      (ground (arith, delete-prev e b h, c.1.0.0, n.1.0))
      (delete-AllSame e a y h ys c.0.1 c.1.0.0 d.0.1.1 d.1.1.0),
)

delete-Chain :
    (h : Memory) (a b e : ℕ) (xs ys : List ℕ)
    → Chain h a (xs ++ e ∷ ys) b
    → Distinct (a ∷ (xs ++ e ∷ ys))
    → NotIn b (xs ++ e ∷ ys)
    → Chain (list_delete_entry e h) a (xs ++ ys) b
delete-Chain h a b e [] ys c d n = delete_first-Chain h a b e ys c d n
delete-Chain h a b e (x ∷ xs) ys c d n =
    let m = Chain-middle h x b e xs ys c.1 in
    (
      (
        ground (arith, delete-next e a h, m.0, NotIn-front a x e xs ys d.0, c.0.0),
        ground (
          arith,
          delete-prev e x h,
          m.1,
          NotIn-first x b e xs ys d.1.0 (λ (q : x ≡ b). n.0 (sym q)),
          c.0.1,
        ),
      ),
      delete-Chain h x b e xs ys c.1 d.1 n.1,
    )

NotIn-less : (y e : ℕ) (xs ys : List ℕ) → NotIn y (xs ++ e ∷ ys) → NotIn y (xs ++ ys)
NotIn-less y e [] ys n = n.1
NotIn-less y e (x ∷ xs) ys n = (n.0, NotIn-less y e xs ys n.1)

Distinct-less : (e : ℕ) (xs ys : List ℕ) → Distinct (xs ++ e ∷ ys) → Distinct (xs ++ ys)
Distinct-less e [] ys d = d.1
Distinct-less e (x ∷ xs) ys d = (NotIn-less x e xs ys d.0, Distinct-less e xs ys d.1)

-- list_delete_entry takes the entry out of its list and keeps the others in their order.
pub list_delete_entry-IsList :
    (h : Memory) (head e : ℕ) (xs ys : List ℕ)
    → IsList h head (xs ++ e ∷ ys)
    → IsList (list_delete_entry e h) head (xs ++ ys)
list_delete_entry-IsList h head e xs ys l = record {
  chain = delete-Chain h head head e xs ys l.chain l.apart l.apart.0;
  apart = Distinct-less e (head ∷ xs) ys l.apart;
}
