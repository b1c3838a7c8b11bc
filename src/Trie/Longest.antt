-- ===== src/Trie/Longest.antt =====
-- The table that `main` of Lab8/10-lookup/main.c loads, against longest prefix matching.
use ucas_computer_network_la.Prelude.{
  ℕ, suc, ◌≤◌, ◌≡◌, refl, sym, subst, Bool, true, ◌&&◌, List, [], ◌∷◌, Option, none, some, arith,
  leb, if◌then◌else◌,
}
use native.Mathlib.Nat.{le_trans}
use ucas_computer_network_la.Trie.{
  Info, PrefixTree, FreshNode, zeroed, node, first_mask, init_tree, insert_info, lookup, build,
  lookup_from, null,
}
use ucas_computer_network_la.Trie.Binary.{
  covers, nodes, IsNode, lookup-insert_info, nodes-insert_info, insert_info-IsNode,
}

-- The lines stand in order of their prefix lengths, from `n` on.
abbrev pub SortedFrom : ℕ → List Info → Type 0
SortedFrom n [] = Unit {0}
SortedFrom n (i ∷ is) = (n ≤ i.prefix_len) × SortedFrom i.prefix_len is

-- A line replaces the best one so far unless that is longer.
abbrev better : Info → Option Info → Bool
better i none = true
better i (some b) = leb b.prefix_len i.prefix_len

abbrev longest_from : Option Info → ℕ → List Info → Option Info
longest_from best ip [] = best
longest_from best ip (i ∷ is) =
    longest_from (if covers i ip && better i best then some i else best) ip is

-- The line that covers the address with the longest prefix, the last one among equals.
abbrev pub longest : ℕ → List Info → Option Info
longest = longest_from none

-- Port 0 stands for "no route".
abbrev pub port_of : Option Info → ℕ
port_of none = 0
port_of (some i) = i.port

abbrev ShorterThan : ℕ → Option Info → Type 0
ShorterThan n none = Unit {0}
ShorterThan n (some i) = i.prefix_len ≤ n

-- One line, inserted into a trie with no longer walk than its own.
lookup-insert_longer :
    (i : Info) (ip n : ℕ) (best : Option Info) (p : ℕ) (l r : PrefixTree)
    → n ≤ i.prefix_len
    → ShorterThan n best
    → nodes ip first_mask (node p l r) ≤ suc n
    → lookup ip (node p l r) ≡ some (port_of best)
    → lookup ip (insert_info zeroed i (node p l r))
      ≡ some (port_of (if covers i ip && better i best then some i else best))
lookup-insert_longer i ip n none p l r s b d h =
    ground (arith, lookup-insert_info zeroed i ip p l r refl)
lookup-insert_longer i ip n (some e) p l r s b d h =
    ground (arith, lookup-insert_info zeroed i ip p l r refl)

ShorterThan-better :
    (i : Info) (ip n : ℕ) (best : Option Info)
    → n ≤ i.prefix_len
    → ShorterThan n best
    → ShorterThan i.prefix_len (if covers i ip && better i best then some i else best)
ShorterThan-better i ip n none s b = ground arith
ShorterThan-better i ip n (some e) s b = ground arith

lookup-build_from :
    (is : List Info) (ip n : ℕ) (best : Option Info) (t : PrefixTree)
    → SortedFrom n is
    → ShorterThan n best
    → IsNode t
    → nodes ip first_mask t ≤ suc n
    → lookup ip t ≡ some (port_of best)
    → lookup ip (build zeroed is t) ≡ some (port_of (longest_from best ip is))
unfolding build
lookup-build_from [] ip n best t s b v d h = h
lookup-build_from (i ∷ is) ip n best t s b (p, l, r, e) d h =
    lookup-build_from is ip i.prefix_len _ (insert_info zeroed i t) s.1
      (ShorterThan-better i ip n best s.0 b) (rw e (insert_info-IsNode i p l r))
      (rw e (
        nodes-insert_info i ip i.prefix_len p l r (le_trans (rw e at d) (omega arith))
          (omega arith)))
      (rw e (lookup-insert_longer i ip n best p l r s.0 b (rw e at d) (rw e at h)))

lookup-build-zeroed :
    (is : List Info) (ip : ℕ)
    → SortedFrom 0 is
    → lookup ip (build zeroed is (init_tree zeroed)) ≡ some (port_of (longest ip is))
unfolding init_tree lookup lookup_from nodes
lookup-build-zeroed is ip s =
    lookup-build_from is ip 0 none (init_tree zeroed) s tt (0, null, null, refl) (ground arith)
      (ground arith)

-- For a table in order of prefix length the trie finds, for every address, the port of the longest
-- prefix that covers it, and port 0 where none does, if the memory that malloc returns is zero.
pub lookup-build :
    (fresh : FreshNode) (is : List Info) (ip : ℕ)
    → fresh ≡ zeroed
    → SortedFrom 0 is
    → lookup ip (build fresh is (init_tree fresh)) ≡ some (port_of (longest ip is))
lookup-build fresh is ip z s =
    subst (λ f. lookup ip (build f is (init_tree f)) ≡ some (port_of (longest ip is))) (sym z)
      (lookup-build-zeroed is ip s)
