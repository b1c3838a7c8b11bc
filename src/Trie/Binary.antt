-- ===== src/Trie/Binary.antt =====
-- One insertion into the one-bit trie of Lab8/10-lookup/main.c, as every later lookup sees it.
use ucas_computer_network_la.Prelude.{
  ℕ, zero, suc, ◌/◌, ◌≤◌, ◌≡◌, refl, sym, subst, ap, ◌∙◌, inl, inr, Bool, true, false, not, ◌&&◌,
  Option, none, some, arith, leb, leb-suc, if◌then◌else◌, Bool-cases,
}
use ucas_computer_network_la.Trie.{
  Info, PrefixTree, FreshNode, zeroed, null, node, first_mask, clear, son_or_new, insert_from,
  insert_info, lookup_from, lookup,
}

-- Whether two addresses have the same bits at `n` masks in a row.
unfoldable pub agrees : ℕ → ℕ → ℕ → ℕ → Bool
agrees zero mask a b = true
agrees (suc n) mask a b =
    (if clear a mask then clear b mask else not (clear b mask)) && agrees n (mask / 2) a b

-- `info` covers the address `ip`.
abbrev pub covers : Info → ℕ → Bool
covers info ip = agrees info.prefix_len first_mask info.ip ip

-- The number of nodes that the walk of `ip` meets.
unfoldable pub nodes : ℕ → ℕ → PrefixTree → ℕ
nodes ip mask null = 0
nodes ip mask (node p l r) = elim (clear ip mask) [
  | true ↦ suc (nodes ip (mask / 2) l)
  | false ↦ suc (nodes ip (mask / 2) r)
]

-- A store at a node shows only where the walk ends there.
stop_or_go :
    (ip mask p q : ℕ) (t : PrefixTree)
    → lookup_from (some q) ip mask t
      ≡ (if leb (suc (nodes ip mask t)) 1 then some q else lookup_from (some p) ip mask t)
unfolding lookup_from nodes
stop_or_go ip mask p q null = ground arith
stop_or_go ip mask p q (node k l r) = elim (Bool-cases (clear ip mask)) [
  | inl e ↦ rw (e, lookup_from, nodes) (ground arith)
  | inr e ↦ rw (e, lookup_from, nodes) (ground arith)
]

lookup_from-insert_from :
    (n : ℕ) (info : Info) (mask ip : ℕ) (ret : Option ℕ) (t : PrefixTree) (q : ℕ)
    → lookup_from ret ip mask (insert_from zeroed n info mask (son_or_new zeroed t q)) ≡ (
        if agrees n mask info.ip ip && leb (nodes ip mask t) (suc n)
        then some info.port
        else lookup_from (some q) ip mask t)
unfolding lookup_from insert_from agrees nodes
lookup_from-insert_from zero info mask ip ret null q = ground arith
lookup_from-insert_from zero info mask ip ret (node p l r) q = elim (Bool-cases (clear ip mask)) [
  | inl e ↦ rw (e, lookup_from, nodes) (stop_or_go ip (mask / 2) p info.port l)
  | inr e ↦ rw (e, lookup_from, nodes) (stop_or_go ip (mask / 2) p info.port r)
]
lookup_from-insert_from (suc n) info mask ip ret null q =
    ground (arith, lookup_from-insert_from n info (mask / 2) ip (some q) null q)
lookup_from-insert_from (suc n) info mask ip ret (node p l r) q =
    let left = lookup_from-insert_from n info (mask / 2) ip (some p) l p in
    let right = lookup_from-insert_from n info (mask / 2) ip (some p) r p in
    elim (Bool-cases (clear info.ip mask)) [
      | inl a ↦ elim (Bool-cases (clear ip mask)) [
        | inl b ↦ rw (a, b, lookup_from, insert_from, agrees, nodes) (left ∙ deeper l)
        | inr b ↦ rw (a, b, lookup_from, insert_from, agrees, nodes) refl
      ]
      | inr a ↦ elim (Bool-cases (clear ip mask)) [
        | inl b ↦ rw (a, b, lookup_from, insert_from, agrees, nodes) refl
        | inr b ↦ rw (a, b, lookup_from, insert_from, agrees, nodes) (right ∙ deeper r)
      ]
    ]
  where
    deeper :
        (t : PrefixTree)
        → (if agrees n (mask / 2) info.ip ip && leb (nodes ip (mask / 2) t) (suc n)
            then some info.port
            else lookup_from (some p) ip (mask / 2) t)
          ≡ (if agrees n (mask / 2) info.ip ip && leb (suc (nodes ip (mask / 2) t)) (suc (suc n))
              then some info.port
              else lookup_from (some p) ip (mask / 2) t)
    deeper t =
        ap
          (λ c.
            if agrees n (mask / 2) info.ip ip && c
            then some info.port
            else lookup_from (some p) ip (mask / 2) t)
          (sym (leb-suc (nodes ip (mask / 2) t) (suc n)))

lookup-insert-zeroed :
    (info : Info) (ip p : ℕ) (l r : PrefixTree)
    → let t = node p l r in
      lookup ip (insert_info zeroed info t) ≡ (
        if covers info ip && leb (nodes ip first_mask t) (suc info.prefix_len)
        then some info.port
        else lookup ip t)
unfolding lookup insert_info lookup_from
lookup-insert-zeroed info ip p l r =
    lookup_from-insert_from info.prefix_len info first_mask ip none (node p l r) 0

-- The root is a node, so a lookup after an insertion finds the new port exactly if the entry covers
-- the address and the walk of the address ended no deeper than the entry; otherwise it finds what
-- it found before. The memory that malloc returns is zero.
pub lookup-insert_info :
    (fresh : FreshNode) (info : Info) (ip p : ℕ) (l r : PrefixTree)
    → fresh ≡ zeroed
    → let t = node p l r in
      lookup ip (insert_info fresh info t) ≡ (
        if covers info ip && leb (nodes ip first_mask t) (suc info.prefix_len)
        then some info.port
        else lookup ip t)
lookup-insert_info fresh info ip p l r z =
    let t = node p l r in
    subst
      (λ f. lookup ip (insert_info f info t) ≡ (
        if covers info ip && leb (nodes ip first_mask t) (suc info.prefix_len)
        then some info.port
        else lookup ip t))
      (sym z) (lookup-insert-zeroed info ip p l r)

-- One step of the walk, and one of the insertion, on each side.
module _ (mask p : ℕ) (l r : PrefixTree) where
  nodes_left :
      (ip : ℕ) → clear ip mask ≡ true → nodes ip mask (node p l r) ≡ suc (nodes ip (mask / 2) l)
  unfolding nodes
  nodes_left ip e = rw (e, nodes)

  nodes_right :
      (ip : ℕ) → clear ip mask ≡ false → nodes ip mask (node p l r) ≡ suc (nodes ip (mask / 2) r)
  unfolding nodes
  nodes_right ip e = rw (e, nodes)

  insert_left :
      (n : ℕ) (info : Info)
      → clear info.ip mask ≡ true
      → insert_from zeroed (suc n) info mask (node p l r)
        ≡ node p (insert_from zeroed n info (mask / 2) (son_or_new zeroed l p)) r
  unfolding insert_from
  insert_left n info e = rw (e, insert_from)

  insert_right :
      (n : ℕ) (info : Info)
      → clear info.ip mask ≡ false
      → insert_from zeroed (suc n) info mask (node p l r)
        ≡ node p l (insert_from zeroed n info (mask / 2) (son_or_new zeroed r p))
  unfolding insert_from
  insert_right n info e = rw (e, insert_from)

nodes-null : (ip mask : ℕ) → nodes ip mask null ≡ 0
unfolding nodes
nodes-null ip mask = refl

nodes-insert_zero :
    (info : Info) (mask ip q : ℕ) (t : PrefixTree)
    → nodes ip mask (insert_from zeroed zero info mask (son_or_new zeroed t q))
      ≡ nodes ip mask (son_or_new zeroed t q)
unfolding insert_from nodes
nodes-insert_zero info mask ip q null = refl
nodes-insert_zero info mask ip q (node p l r) = refl

nodes-son_or_new :
    (ip mask q k : ℕ) (t : PrefixTree)
    → nodes ip mask t ≤ suc k
    → nodes ip mask (son_or_new zeroed t q) ≤ suc k
unfolding nodes
nodes-son_or_new ip mask q k null h = ground arith
nodes-son_or_new ip mask q k (node p l r) h = h

-- The step of the next lemma: `shorter` is its claim for a son.
module _ (n : ℕ) (info : Info) (mask ip p k : ℕ) where
  abbrev Shorter : PrefixTree → Type 0
  Shorter t =
      nodes ip (mask / 2) t ≤ k
      → nodes ip (mask / 2) (insert_from zeroed n info (mask / 2) (son_or_new zeroed t p)) ≤ k

  nodes-insert_node :
      (l r : PrefixTree)
      → nodes ip mask (node p l r) ≤ suc k
      → Shorter l
      → Shorter r
      → nodes ip mask (insert_from zeroed (suc n) info mask (node p l r)) ≤ suc k
  nodes-insert_node l r h left right = elim (Bool-cases (clear info.ip mask)) [
    | inl a ↦ elim (Bool-cases (clear ip mask)) [
      | inl b ↦
          rw (insert_left mask p l r n info a, nodes_left _ p _ r ip b)
            (omega (arith, nodes_left mask p l r ip b, left))
      | inr b ↦
          rw (insert_left mask p l r n info a, nodes_right _ p _ r ip b)
            (omega (arith, nodes_right mask p l r ip b))
    ]
    | inr a ↦ elim (Bool-cases (clear ip mask)) [
      | inl b ↦
          rw (insert_right mask p l r n info a, nodes_left _ p l _ ip b)
            (omega (arith, nodes_left mask p l r ip b))
      | inr b ↦
          rw (insert_right mask p l r n info a, nodes_right _ p l _ ip b)
            (omega (arith, nodes_right mask p l r ip b, right))
    ]
  ]

-- An insertion makes no walk longer than the entry and the walk before it.
nodes-insert_from :
    (n : ℕ) (info : Info) (mask ip : ℕ) (t : PrefixTree) (q k : ℕ)
    → nodes ip mask t ≤ k
    → suc n ≤ k
    → nodes ip mask (insert_from zeroed n info mask (son_or_new zeroed t q)) ≤ k
nodes-insert_from zero info mask ip t q zero h d = absurd (omega arith)
nodes-insert_from zero info mask ip t q (suc k) h d =
    rw nodes-insert_zero (nodes-son_or_new ip mask q k t h)
nodes-insert_from (suc n) info mask ip t q zero h d = absurd (omega arith)
nodes-insert_from (suc n) info mask ip null q (suc k) h d =
    nodes-insert_node n info mask ip q k null null (nodes-son_or_new ip mask q k null h)
      (λ b. nodes-insert_from n info (mask / 2) ip null q k b (omega arith))
      (λ b. nodes-insert_from n info (mask / 2) ip null q k b (omega arith))
nodes-insert_from (suc n) info mask ip (node p l r) q (suc k) h d =
    nodes-insert_node n info mask ip p k l r h
      (λ b. nodes-insert_from n info (mask / 2) ip l p k b (omega arith))
      (λ b. nodes-insert_from n info (mask / 2) ip r p k b (omega arith))

pub nodes-insert_info :
    (info : Info) (ip k p : ℕ) (l r : PrefixTree)
    → nodes ip first_mask (node p l r) ≤ suc k
    → info.prefix_len ≤ k
    → nodes ip first_mask (insert_info zeroed info (node p l r)) ≤ suc k
unfolding insert_info
nodes-insert_info info ip k p l r h d =
    nodes-insert_from info.prefix_len info first_mask ip (node p l r) 0 (suc k) h (omega arith)

abbrev pub IsNode : PrefixTree → Type 0
IsNode t = (p : ℕ) × (l : PrefixTree) × (r : PrefixTree) × (t ≡ node p l r)

insert_from-IsNode :
    (n : ℕ) (info : Info) (mask p : ℕ) (l r : PrefixTree)
    → IsNode (insert_from zeroed n info mask (node p l r))
unfolding insert_from
insert_from-IsNode zero info mask p l r = (info.port, l, r, refl)
insert_from-IsNode (suc n) info mask p l r = elim (Bool-cases (clear info.ip mask)) [
  | inl e ↦ rw (e, insert_from) (p, _, r, refl)
  | inr e ↦ rw (e, insert_from) (p, l, _, refl)
]

pub insert_info-IsNode :
    (info : Info) (p : ℕ) (l r : PrefixTree) → IsNode (insert_info zeroed info (node p l r))
unfolding insert_info
insert_info-IsNode info p l r = insert_from-IsNode info.prefix_len info first_mask p l r
