-- ===== src/Trie.antt =====
-- The forwarding tries of Lab8/10-lookup (main.c and basic.h). A null pointer is `null`. The
-- code never writes the pointers of a node that `malloc` returns, so that what they hold is a parameter
-- `fresh`, the same for every node.
-- An address is its 32-bit pattern, and the memory counters of the program are left out.
pub mod Binary
pub mod Pairs
pub mod Quad
pub mod Longest
mod Tests
use Prim.Native.Nat.{bit_and}
use ucas_computer_network_la.Prelude.{
  ℕ, zero, suc, ◌+◌, ◌-◌, ◌/◌, ◌%◌, ◌^◌, Bool, true, false, ◌&&◌, List, [], ◌∷◌, Option, none, some,
  ltb, ◌==◌, if◌then◌else◌,
}

-- `Info`: one line of the forwarding table.
pub record Info : Type 0 where
  pub ip : ℕ
  pub prefix_len : ℕ
  pub port : ℕ

-- `struct Node *`.
pub data PrefixTree : Type 0 where
  null : PrefixTree
  node : ℕ → PrefixTree → PrefixTree → PrefixTree

-- `struct Node2 *`, with the sons 00, 01, 10 and 11.
pub data PrefixTree2 : Type 0 where
  null2 : PrefixTree2
  node2 : ℕ → PrefixTree2 → PrefixTree2 → PrefixTree2 → PrefixTree2 → PrefixTree2

abbrev pub first_mask : ℕ
first_mask = 0x80000000

-- `(ip & mask) == 0`.
pub clear : ℕ → ℕ → Bool
clear ip mask = bit_and ip mask == 0

-- What the pointers of a node hold that malloc returns: the code writes only the port of a new node.
pub record FreshNode : Type 0 where
  pub left : PrefixTree
  pub right : PrefixTree

pub record FreshNode2 : Type 0 where
  pub son00 : PrefixTree2
  pub son01 : PrefixTree2
  pub son10 : PrefixTree2
  pub son11 : PrefixTree2

-- Memory of zeros.
abbrev pub zeroed : FreshNode
zeroed = record { left = null; right = null }

abbrev pub zeroed2 : FreshNode2
zeroed2 = record { son00 = null2; son01 = null2; son10 = null2; son11 = null2 }

pub init_tree : FreshNode → PrefixTree
init_tree fresh = node 0 fresh.left fresh.right

pub init_tree_2bit : FreshNode2 → PrefixTree2
init_tree_2bit fresh = node2 0 fresh.son00 fresh.son01 fresh.son10 fresh.son11

-- A son that is missing is made with the port of its father.
abbrev pub son_or_new : FreshNode → PrefixTree → ℕ → PrefixTree
son_or_new fresh null port = node port fresh.left fresh.right
son_or_new fresh (node p l r) port = node p l r

abbrev pub son_or_new2 : FreshNode2 → PrefixTree2 → ℕ → PrefixTree2
son_or_new2 fresh null2 port = node2 port fresh.son00 fresh.son01 fresh.son10 fresh.son11
son_or_new2 fresh (node2 p a b c d) port = node2 p a b c d

-- The loop of `insert_info` below the node `ptr`, with `n` bits left, and the final store.
pub insert_from : FreshNode → ℕ → Info → ℕ → PrefixTree → PrefixTree
insert_from fresh n info mask null = null
insert_from fresh zero info mask (node p l r) = node info.port l r
insert_from fresh (suc n) info mask (node p l r) = elim (clear info.ip mask) [
  | true ↦ node p (insert_from fresh n info (mask / 2) (son_or_new fresh l p)) r
  | false ↦ node p l (insert_from fresh n info (mask / 2) (son_or_new fresh r p))
]

pub insert_info : FreshNode → Info → PrefixTree → PrefixTree
insert_info fresh info root = insert_from fresh info.prefix_len info first_mask root

-- The loop of `lookup`: `ret` is the port of the last node, `none` before the first.
pub lookup_from : Option ℕ → ℕ → ℕ → PrefixTree → Option ℕ
lookup_from ret ip mask null = ret
lookup_from ret ip mask (node p l r) = elim (clear ip mask) [
  | true ↦ lookup_from (some p) ip (mask / 2) l
  | false ↦ lookup_from (some p) ip (mask / 2) r
]

-- `none` is a null dereference: an empty root.
pub lookup : ℕ → PrefixTree → Option ℕ
lookup ip root = lookup_from none ip first_mask root

-- The last step of `insert_info_2bit` for an odd length: the two sons below the last bit are made
-- where they are missing, and a son that is there keeps its port.
finish_odd : FreshNode2 → Info → ℕ → PrefixTree2 → PrefixTree2
finish_odd fresh info mask null2 = null2
finish_odd fresh info mask (node2 p a b c d) =
    if clear info.ip mask
    then node2 p (son_or_new2 fresh a info.port) (son_or_new2 fresh b info.port) c d
    else node2 p a b (son_or_new2 fresh c info.port) (son_or_new2 fresh d info.port)

finish_even : Info → PrefixTree2 → PrefixTree2
finish_even info null2 = null2
finish_even info (node2 p a b c d) = node2 info.port a b c d

-- The loop of `insert_info_2bit` below `ptr`, with `n` rounds left.
pub insert2_from : FreshNode2 → ℕ → Info → ℕ → ℕ → PrefixTree2 → PrefixTree2
insert2_from fresh n info mask mask_next null2 = null2
insert2_from fresh zero info mask mask_next (node2 p a b c d) =
    if info.prefix_len % 2 == 0
    then finish_even info (node2 p a b c d)
    else finish_odd fresh info mask (node2 p a b c d)
insert2_from fresh (suc n) info mask mask_next (node2 p a b c d) =
    let go = insert2_from fresh n info (mask / 4) (mask_next / 4) in
    elim (clear info.ip mask) [
      | true ↦ elim (clear info.ip mask_next) [
        | true ↦ node2 p (go (son_or_new2 fresh a p)) b c d
        | false ↦ node2 p a (go (son_or_new2 fresh b p)) c d
      ]
      | false ↦ elim (clear info.ip mask_next) [
        | true ↦ node2 p a b (go (son_or_new2 fresh c p)) d
        | false ↦ node2 p a b c (go (son_or_new2 fresh d p))
      ]
    ]

-- `for (i = 0; i < prefix_len - 1; i += 2)` makes `prefix_len / 2` rounds.
pub insert_info_2bit : FreshNode2 → Info → PrefixTree2 → PrefixTree2
insert_info_2bit fresh info root =
    insert2_from fresh (info.prefix_len / 2) info first_mask 0x40000000 root

-- The loop of `lookup_2bit`.
pub lookup2_from : Option ℕ → ℕ → ℕ → ℕ → PrefixTree2 → Option ℕ
lookup2_from ret ip mask mask_next null2 = ret
lookup2_from ret ip mask mask_next (node2 p a b c d) = elim (clear ip mask) [
  | true ↦ elim (clear ip mask_next) [
    | true ↦ lookup2_from (some p) ip (mask / 4) (mask_next / 4) a
    | false ↦ lookup2_from (some p) ip (mask / 4) (mask_next / 4) b
  ]
  | false ↦ elim (clear ip mask_next) [
    | true ↦ lookup2_from (some p) ip (mask / 4) (mask_next / 4) c
    | false ↦ lookup2_from (some p) ip (mask / 4) (mask_next / 4) d
  ]
]

pub lookup_2bit : ℕ → PrefixTree2 → Option ℕ
lookup_2bit ip root = lookup2_from none ip first_mask 0x40000000 root

-- `main` inserts every line of the table into both tries, in the order of the file.
pub build : FreshNode → List Info → PrefixTree → PrefixTree
build fresh [] t = t
build fresh (info ∷ infos) t = build fresh infos (insert_info fresh info t)

pub build2 : FreshNode2 → List Info → PrefixTree2 → PrefixTree2
build2 fresh [] t = t
build2 fresh (info ∷ infos) t = build2 fresh infos (insert_info_2bit fresh info t)
