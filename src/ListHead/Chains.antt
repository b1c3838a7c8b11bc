-- ===== src/ListHead/Chains.antt =====
-- Linked nodes as lists of addresses, for the lists of Lab15/16-tcp_stack/include/list.h.
use ucas_computer_network_la.Prelude.{ℕ, ◌≡◌, ◌≢◌, ◌∙◌, List, [], ◌∷◌, arith}
use ucas_computer_network_la.ListHead.{Memory, set_next, set_prev}

-- From `a` over `xs` to `b` the pointers go forth and back.
abbrev pub Chain : Memory → ℕ → List ℕ → ℕ → Type 0
Chain h a [] b = ((h a).next ≡ b) × ((h b).prev ≡ a)
Chain h a (x ∷ xs) b = (((h a).next ≡ x) × ((h x).prev ≡ a)) × Chain h x xs b

abbrev pub NotIn : ℕ → List ℕ → Type 0
NotIn x [] = Unit {0}
NotIn x (y ∷ ys) = (x ≢ y) × NotIn x ys

abbrev pub Distinct : List ℕ → Type 0
Distinct [] = Unit {0}
Distinct (x ∷ xs) = NotIn x xs × Distinct xs

-- The list of `head` has the nodes `xs`, in this order, and none of them twice.
pub record IsList (h : Memory) (head : ℕ) (xs : List ℕ) : Type 0 where
  pub chain : Chain h head xs head
  pub apart : Distinct (head ∷ xs)

-- The node before the end of a chain, and the node after its start.
abbrev pub last : ℕ → List ℕ → ℕ
last a [] = a
last a (x ∷ xs) = last x xs

abbrev pub first : List ℕ → ℕ → ℕ
first [] b = b
first (x ∷ xs) b = x

pub Chain-next : (h : Memory) (a b : ℕ) (xs : List ℕ) → Chain h a xs b → (h a).next ≡ first xs b
Chain-next h a b [] c = c.0
Chain-next h a b (x ∷ xs) c = c.0.0

pub Chain-prev : (h : Memory) (a b : ℕ) (xs : List ℕ) → Chain h a xs b → (h b).prev ≡ last a xs
Chain-prev h a b [] c = c.1
Chain-prev h a b (x ∷ xs) c = Chain-prev h x b xs c.1

-- The nodes are as they were.
abbrev pub AllSame : Memory → Memory → List ℕ → Type 0
AllSame h h' [] = Unit {0}
AllSame h h' (x ∷ xs) = ((h' x).next ≡ (h x).next) × ((h' x).prev ≡ (h x).prev) × AllSame h h' xs

-- A chain reads one pointer of each of its ends and both of the nodes between.
pub Chain-AllSame :
    (h h' : Memory) (a b : ℕ) (xs : List ℕ)
    → Chain h a xs b
    → (h' a).next ≡ (h a).next
    → (h' b).prev ≡ (h b).prev
    → AllSame h h' xs
    → Chain h' a xs b
Chain-AllSame h h' a b [] c n p s = (n ∙ c.0, p ∙ c.1)
Chain-AllSame h h' a b (x ∷ xs) c n p s =
    ((n ∙ c.0.0, s.1 ∙ c.0.1), Chain-AllSame h h' x b xs c.1 s.0 p s.2)

-- What an assignment leaves alone.
pub set_next-other : (a v x : ℕ) (h : Memory) → x ≢ a → (set_next a v h x).next ≡ (h x).next
unfolding set_next
set_next-other a v x h d = ground (arith, d)

pub set_next-prev : (a v x : ℕ) (h : Memory) → (set_next a v h x).prev ≡ (h x).prev
unfolding set_next
set_next-prev a v x h = ground arith

pub set_next-own : (a v : ℕ) (h : Memory) → (set_next a v h a).next ≡ v
unfolding set_next
set_next-own a v h = ground arith

pub set_prev-other : (a v x : ℕ) (h : Memory) → x ≢ a → (set_prev a v h x).prev ≡ (h x).prev
unfolding set_prev
set_prev-other a v x h d = ground (arith, d)

pub set_prev-next : (a v x : ℕ) (h : Memory) → (set_prev a v h x).next ≡ (h x).next
unfolding set_prev
set_prev-next a v x h = ground arith

pub set_prev-own : (a v : ℕ) (h : Memory) → (set_prev a v h a).prev ≡ v
unfolding set_prev
set_prev-own a v h = ground arith
