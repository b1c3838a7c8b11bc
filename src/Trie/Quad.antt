-- ===== src/Trie/Quad.antt =====
-- One insertion into the two-bit trie of Lab8/10-lookup/main.c, as every later lookup sees it.
use ucas_computer_network_la.Prelude.{
  ℕ, zero, suc, ◌+◌, ◌/◌, ◌%◌, ◌≡◌, refl, ap, ◌∙◌, inl, inr, Bool, true, false, not, ◌&&◌, Option,
  none, some, arith, leb, ◌==◌, if◌then◌else◌, Bool-cases,
}
use ucas_computer_network_la.Trie.{
  Info, PrefixTree2, zeroed2, null2, node2, first_mask, clear, son_or_new2, finish_odd, finish_even,
  insert2_from, insert_info_2bit, lookup2_from, lookup_2bit,
}
use ucas_computer_network_la.Trie.Binary.{agrees, covers}
use ucas_computer_network_la.Trie.Pairs.{
  same, pick, pick-put, agrees2, lookup2-node, nodes2-node, insert2-node, lookup2-null, nodes2-null,
  stop_or_go2, lookup2-leaf, nodes2-leaf, new_son_or_go, nodes2,
}

-- Insertion into a node: the claim for no rounds, for one round more, and from a son that may be
-- missing.
abbrev even_len : Info → Bool
even_len info = info.prefix_len % 2 == 0

module _ (info : Info) (ip : ℕ) where
  abbrev Sees : ℕ → ℕ → ℕ → Option ℕ → ℕ → PrefixTree2 → Type 0
  Sees n mask next ret q t =
      lookup2_from ret ip mask next
        (insert2_from zeroed2 n info mask next (son_or_new2 zeroed2 t q))
      ≡ (if agrees2 (even_len info) n mask next info.ip ip && leb (nodes2 ip mask next t) (suc n)
          then some info.port
          else lookup2_from (some q) ip mask next t)

  Sees-null :
      (n mask next q : ℕ) (ret : Option ℕ)
      → Sees n mask next ret 0 (node2 q null2 null2 null2 null2)
      → Sees n mask next ret q null2
  Sees-null n mask next q ret h = ground (
    arith,
    h,
    nodes2-null ip mask next,
    nodes2-leaf ip mask next 0 q,
    lookup2-leaf ip mask next 0 q (some 0),
    lookup2-null (some q) ip mask next,
  )

  insert2_zero :
      (mask next p : ℕ) (a b c d : PrefixTree2)
      → insert2_from zeroed2 zero info mask next (node2 p a b c d) ≡ (
          if even_len info
          then node2 info.port a b c d
          else if clear info.ip mask
          then node2 p (son_or_new2 zeroed2 a info.port) (son_or_new2 zeroed2 b info.port) c d
          else node2 p a b (son_or_new2 zeroed2 c info.port) (son_or_new2 zeroed2 d info.port))
  unfolding insert2_from finish_even finish_odd
  insert2_zero mask next p a b c d = refl

  pick_new_sons :
      (x u v : Bool) (a b c d : PrefixTree2)
      → pick u v
          (if x then son_or_new2 zeroed2 a info.port else a)
          (if x then son_or_new2 zeroed2 b info.port else b)
          (if x then c else son_or_new2 zeroed2 c info.port)
          (if x then d else son_or_new2 zeroed2 d info.port)
        ≡ (if same x u then son_or_new2 zeroed2 (pick u v a b c d) info.port else pick u v a b c d)
  pick_new_sons x u v a b c d = ground arith

  odd_form :
      (mask next p : ℕ) (a b c d : PrefixTree2)
      → even_len info ≡ false
      → insert2_from zeroed2 zero info mask next (node2 p a b c d) ≡ (
          let x = clear info.ip mask in
          node2 p
            (if x then son_or_new2 zeroed2 a info.port else a)
            (if x then son_or_new2 zeroed2 b info.port else b)
            (if x then c else son_or_new2 zeroed2 c info.port)
            (if x then d else son_or_new2 zeroed2 d info.port))
  odd_form mask next p a b c d e = elim (Bool-cases (clear info.ip mask)) [
    | inl x ↦ rw (insert2_zero, e, x)
    | inr x ↦ rw (insert2_zero, e, x)
  ]

  Sees-zero :
      (mask next p q : ℕ) (ret : Option ℕ) (a b c d : PrefixTree2)
      → Sees zero mask next ret q (node2 p a b c d)
  unfolding agrees2
  Sees-zero mask next p q ret a b c d =
      let x = clear info.ip mask in
      let u = clear ip mask in
      let v = clear ip next in
      let son = pick u v a b c d in
      elim (Bool-cases (even_len info)) [
        | inl e ↦
            rw (insert2_zero, e)
              (ground (
                arith,
                lookup2-node info.port a b c d ip mask next ret,
                lookup2-node p a b c d ip mask next (some q),
                nodes2-node p a b c d ip mask next,
                stop_or_go2 ip (mask / 4) (next / 4) p info.port son,
              ))
        | inr e ↦
            rw (odd_form mask next p a b c d e, e)
              (ground (
                arith,
                lookup2-node p (if x then son_or_new2 zeroed2 a info.port else a)
                    (if x then son_or_new2 zeroed2 b info.port else b)
                    (if x then c else son_or_new2 zeroed2 c info.port)
                    (if x then d else son_or_new2 zeroed2 d info.port) ip mask next ret,
                pick_new_sons x u v a b c d,
                lookup2-node p a b c d ip mask next (some q),
                nodes2-node p a b c d ip mask next,
                new_son_or_go ip (mask / 4) (next / 4) p info.port son,
              ))
      ]

  pick-same :
      (x y u v : Bool) (a b c d : PrefixTree2)
      → (same x u && same y v) ≡ true
      → pick x y a b c d ≡ pick u v a b c d
  pick-same x y u v a b c d h = ground arith

  Sees-suc :
      (n mask next p q : ℕ) (ret : Option ℕ) (a b c d : PrefixTree2)
      → ((t : PrefixTree2) → Sees n (mask / 4) (next / 4) (some p) p t)
      → Sees (suc n) mask next ret q (node2 p a b c d)
  unfolding agrees2
  Sees-suc n mask next p q ret a b c d ih =
      let x = clear info.ip mask in
      let y = clear info.ip next in
      let u = clear ip mask in
      let v = clear ip next in
      let insert = λ (t : PrefixTree2).
        insert2_from zeroed2 n info (mask / 4) (next / 4) (son_or_new2 zeroed2 t p) in
      let new = insert (pick x y a b c d) in
      let walked =
        lookup2-node p (if x && y then new else a) (if x && not y then new else b)
          (if not x && y then new else c) (if not x && not y then new else d) ip mask next ret
        ∙ ap (lookup2_from (some p) ip (mask / 4) (next / 4)) (pick-put x y u v new a b c d) in
      rw (insert2-node n info mask next p a b c d) (elim (Bool-cases (same x u && same y v)) [
        | inl s ↦ ground (
          arith,
          walked,
          ap insert (pick-same x y u v a b c d s),
          ih (pick u v a b c d),
          lookup2-node p a b c d ip mask next (some q),
          nodes2-node p a b c d ip mask next,
        )
        | inr s ↦ ground (arith, walked, lookup2-node p a b c d ip mask next (some q))
      ])

  -- The claim for every number of rounds.
  Sees-all : (n mask next : ℕ) (ret : Option ℕ) (q : ℕ) (t : PrefixTree2) → Sees n mask next ret q t
  Sees-all zero mask next ret q null2 =
      Sees-null zero mask next q ret (Sees-zero mask next q 0 ret null2 null2 null2 null2)
  Sees-all zero mask next ret q (node2 p a b c d) = Sees-zero mask next p q ret a b c d
  Sees-all (suc n) mask next ret q null2 = Sees-null (suc n) mask next q ret (
      Sees-suc n mask next q 0 ret null2 null2 null2 null2
        (λ t. Sees-all n (mask / 4) (next / 4) (some q) q t))
  Sees-all (suc n) mask next ret q (node2 p a b c d) =
      Sees-suc n mask next p q ret a b c d (λ t. Sees-all n (mask / 4) (next / 4) (some p) p t)

-- The number of bits in `n` pairs and an odd one.
abbrev bits : Bool → ℕ → ℕ
bits even zero = if even then 0 else 1
bits even (suc n) = suc (suc (bits even n))

bits-half : (even : Bool) (n : ℕ) → bits even n ≡ n + n + (if even then 0 else 1)
bits-half even zero = ground arith
bits-half even (suc n) = omega (arith, bits-half even n)

agrees2-agrees :
    (even : Bool) (n mask next a b : ℕ)
    → next ≡ mask / 2
    → agrees2 even n mask next a b ≡ agrees (bits even n) mask a b
unfolding agrees2 agrees
agrees2-agrees true zero mask next a b h = refl
agrees2-agrees false zero mask next a b h = ground arith
agrees2-agrees even (suc n) mask next a b h =
    let quarter : mask / 4 ≡ mask / 2 / 2 = omega arith in
    rw (agrees2-agrees even n (mask / 4) (next / 4) a b (omega arith), h, quarter)

covers2 :
    (info : Info) (ip : ℕ)
    → agrees2 (even_len info) (info.prefix_len / 2) first_mask 0x40000000 info.ip ip
      ≡ covers info ip
covers2 info ip =
    agrees2-agrees (even_len info) (info.prefix_len / 2) first_mask 0x40000000 info.ip ip refl
    ∙ ap (λ n. agrees n first_mask info.ip ip) {x = bits (even_len info) (info.prefix_len / 2)}
        (ground (arith, bits-half (even_len info) (info.prefix_len / 2)))

-- The root is a node, so a lookup after an insertion finds the new port exactly if the entry covers
-- the address and the walk of the address ended within the whole pairs of bits of the entry;
-- otherwise it finds what it found before.
pub lookup-insert_info_2bit :
    (info : Info) (ip p : ℕ) (a b c d : PrefixTree2)
    → let t = node2 p a b c d in
      lookup_2bit ip (insert_info_2bit zeroed2 info t) ≡ (
        if covers info ip && leb (nodes2 ip first_mask 0x40000000 t) (suc (info.prefix_len / 2))
        then some info.port
        else lookup_2bit ip t)
unfolding lookup_2bit insert_info_2bit
lookup-insert_info_2bit info ip p a b c d = ground (
  arith,
  covers2 info ip,
  Sees-all info ip (info.prefix_len / 2) first_mask 0x40000000 none 0 (node2 p a b c d),
  lookup2-node p a b c d ip first_mask 0x40000000 none,
  lookup2-node p a b c d ip first_mask 0x40000000 (some 0),
)
