-- ===== src/Trie/Pairs.antt =====
-- Walks and single steps in the two-bit trie of Lab8/10-lookup/main.c.
use ucas_computer_network_la.Prelude.{
  ℕ, zero, suc, ◌/◌, ◌≡◌, refl, ap, ◌∙◌, inl, inr, Bool, true, false, not, ◌&&◌, Option, some,
  arith, leb, if◌then◌else◌, Bool-cases,
}
use ucas_computer_network_la.Trie.{
  Info, PrefixTree2, zeroed2, null2, node2, clear, son_or_new2, insert2_from, lookup2_from,
}

abbrev pub same : Bool → Bool → Bool
same x y = if x then y else not y

-- The son that two bits name (`true` is a zero bit), and the node with that son replaced.
abbrev pub pick : Bool → Bool → PrefixTree2 → PrefixTree2 → PrefixTree2 → PrefixTree2 → PrefixTree2
pick true true a b c d = a
pick true false a b c d = b
pick false true a b c d = c
pick false false a b c d = d

abbrev pub put :
    Bool
    → Bool
    → PrefixTree2
    → ℕ
    → PrefixTree2
    → PrefixTree2
    → PrefixTree2
    → PrefixTree2
    → PrefixTree2
put x y t p a b c d =
    node2 p (if x && y then t else a) (if x && not y then t else b) (if not x && y then t else c)
      (if not x && not y then t else d)

pub pick-put :
    (x y u v : Bool) (t a b c d : PrefixTree2)
    → pick u v
        (if x && y then t else a)
        (if x && not y then t else b)
        (if not x && y then t else c)
        (if not x && not y then t else d)
      ≡ (if same x u && same y v then t else pick u v a b c d)
pick-put x y u v t a b c d = ground arith

-- The number of nodes that the walk of `ip` meets.
unfoldable pub nodes2 : ℕ → ℕ → ℕ → PrefixTree2 → ℕ
nodes2 ip mask next null2 = 0
nodes2 ip mask next (node2 p a b c d) = elim (clear ip mask) [
  | true ↦ elim (clear ip next) [
    | true ↦ suc (nodes2 ip (mask / 4) (next / 4) a)
    | false ↦ suc (nodes2 ip (mask / 4) (next / 4) b)
  ]
  | false ↦ elim (clear ip next) [
    | true ↦ suc (nodes2 ip (mask / 4) (next / 4) c)
    | false ↦ suc (nodes2 ip (mask / 4) (next / 4) d)
  ]
]

-- Agreement in `n` pairs of bits, and in one bit more where the length is odd.
unfoldable pub agrees2 : Bool → ℕ → ℕ → ℕ → ℕ → ℕ → Bool
agrees2 even zero mask next a b = if even then true else same (clear a mask) (clear b mask)
agrees2 even (suc n) mask next a b =
    same (clear a mask) (clear b mask)
    && (same (clear a next) (clear b next) && agrees2 even n (mask / 4) (next / 4) a b)

module _ (p : ℕ) (a b c d : PrefixTree2) (ip mask next : ℕ) where
  pub lookup2-node :
      (ret : Option ℕ)
      → lookup2_from ret ip mask next (node2 p a b c d)
        ≡ lookup2_from
            (some p)
            ip
            (mask / 4)
            (next / 4)
            (pick (clear ip mask) (clear ip next) a b c d)
  unfolding lookup2_from
  lookup2-node ret = elim (Bool-cases (clear ip mask)) [
    | inl x ↦ elim (Bool-cases (clear ip next)) [
      | inl y ↦ rw (x, y, lookup2_from)
      | inr y ↦ rw (x, y, lookup2_from)
    ]
    | inr x ↦ elim (Bool-cases (clear ip next)) [
      | inl y ↦ rw (x, y, lookup2_from)
      | inr y ↦ rw (x, y, lookup2_from)
    ]
  ]

  pub nodes2-node :
      nodes2 ip mask next (node2 p a b c d)
      ≡ suc (nodes2 ip (mask / 4) (next / 4) (pick (clear ip mask) (clear ip next) a b c d))
  unfolding nodes2
  nodes2-node = elim (Bool-cases (clear ip mask)) [
    | inl x ↦ elim (Bool-cases (clear ip next)) [
      | inl y ↦ rw (x, y, nodes2)
      | inr y ↦ rw (x, y, nodes2)
    ]
    | inr x ↦ elim (Bool-cases (clear ip next)) [
      | inl y ↦ rw (x, y, nodes2)
      | inr y ↦ rw (x, y, nodes2)
    ]
  ]

pub insert2-node :
    (n : ℕ) (info : Info) (mask next p : ℕ) (a b c d : PrefixTree2)
    → insert2_from zeroed2 (suc n) info mask next (node2 p a b c d)
      ≡ put
          (clear info.ip mask)
          (clear info.ip next)
          (insert2_from zeroed2 n info
            (mask / 4)
            (next / 4)
            (son_or_new2 zeroed2 (pick (clear info.ip mask) (clear info.ip next) a b c d) p))
          p
          a
          b
          c
          d
unfolding insert2_from
insert2-node n info mask next p a b c d = elim (Bool-cases (clear info.ip mask)) [
  | inl x ↦ elim (Bool-cases (clear info.ip next)) [
    | inl y ↦ rw (x, y, insert2_from)
    | inr y ↦ rw (x, y, insert2_from)
  ]
  | inr x ↦ elim (Bool-cases (clear info.ip next)) [
    | inl y ↦ rw (x, y, insert2_from)
    | inr y ↦ rw (x, y, insert2_from)
  ]
]

pub pick-null : (x y : Bool) → pick x y null2 null2 null2 null2 ≡ null2
pick-null x y = ground arith

pub lookup2-null : (ret : Option ℕ) (ip mask next : ℕ) → lookup2_from ret ip mask next null2 ≡ ret
unfolding lookup2_from
lookup2-null ret ip mask next = refl

pub nodes2-null : (ip mask next : ℕ) → nodes2 ip mask next null2 ≡ 0
unfolding nodes2
nodes2-null ip mask next = refl

-- A store at a node shows only where the walk ends there, and so does a new son.
module _ (ip mask next p q : ℕ) where
  pub stop_or_go2 :
      (t : PrefixTree2)
      → lookup2_from (some q) ip mask next t ≡ (
          if leb (suc (nodes2 ip mask next t)) 1
          then some q
          else lookup2_from (some p) ip mask next t)
  stop_or_go2 null2 = ground (arith, nodes2-null ip mask next, lookup2-null (some q) ip mask next)
  stop_or_go2 (node2 k a b c d) = ground (
    arith,
    nodes2-node k a b c d ip mask next,
    lookup2-node k a b c d ip mask next (some q),
    lookup2-node k a b c d ip mask next (some p),
  )

  pub lookup2-leaf :
      (ret : Option ℕ) → lookup2_from ret ip mask next (node2 q null2 null2 null2 null2) ≡ some q
  lookup2-leaf ret =
      lookup2-node q null2 null2 null2 null2 ip mask next ret
      ∙ ap (lookup2_from (some q) ip (mask / 4) (next / 4))
          (pick-null (clear ip mask) (clear ip next))
      ∙ lookup2-null (some q) ip (mask / 4) (next / 4)

  pub nodes2-leaf : nodes2 ip mask next (node2 q null2 null2 null2 null2) ≡ 1
  nodes2-leaf =
      nodes2-node q null2 null2 null2 null2 ip mask next
      ∙ ap (λ t. suc (nodes2 ip (mask / 4) (next / 4) t))
          (pick-null (clear ip mask) (clear ip next))
      ∙ ap suc (nodes2-null ip (mask / 4) (next / 4))

  pub new_son_or_go :
      (t : PrefixTree2)
      → lookup2_from (some p) ip mask next (son_or_new2 zeroed2 t q) ≡ (
          if leb (suc (nodes2 ip mask next t)) 1
          then some q
          else lookup2_from (some p) ip mask next t)
  new_son_or_go null2 = ground (arith, nodes2-null ip mask next, lookup2-leaf (some p))
  new_son_or_go (node2 k a b c d) = ground (arith, nodes2-node k a b c d ip mask next)
