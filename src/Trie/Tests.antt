-- ===== src/Trie/Tests.antt =====
-- A small forwarding table for the tries of Lab8/10-lookup/main.c.
use ucas_computer_network_la.Prelude.{◌≡◌, refl, List, [], ◌∷◌, some, arith}
use ucas_computer_network_la.Trie.{
  Info, zeroed, zeroed2, null, node, clear, init_tree, init_tree_2bit, insert_from, insert_info,
  lookup_from, lookup, insert2_from, insert_info_2bit, lookup2_from, lookup_2bit, finish_odd,
  finish_even, build, build2,
}
use ucas_computer_network_la.Trie.Binary.{nodes, agrees, lookup-insert_info}
use ucas_computer_network_la.Trie.Longest.{longest, port_of, lookup-build}

-- 10.0.0.0/8 to port 1, 10.128.0.0/9 to port 2, 10.192.0.0/10 to port 3.
abbrev table : List Info
table =
    record { ip = 0x0a000000; prefix_len = 8; port = 1 }
    ∷ record { ip = 0x0a800000; prefix_len = 9; port = 2 }
    ∷ record { ip = 0x0ac00000; prefix_len = 10; port = 3 }
    ∷ []

abbrev host : Info
host = record { ip = 0xc0a80101; prefix_len = 3; port = 7 }

lookups :
    (lookup 0x0a010203 (build zeroed table (init_tree zeroed)) ≡ some 1)
    × (lookup 0x0aff0000 (build zeroed table (init_tree zeroed)) ≡ some 3)
    × (lookup_2bit 0x0a900000 (build2 zeroed2 table (init_tree_2bit zeroed2)) ≡ some 2)
    × (lookup_2bit 0x0aff0000 (build2 zeroed2 table (init_tree_2bit zeroed2)) ≡ some 3)
unfolding build build2 insert_info insert_info_2bit insert_from insert2_from lookup lookup_2bit
    lookup_from lookup2_from finish_odd finish_even init_tree init_tree_2bit clear
lookups = (refl, refl, refl, refl)

lookup-insert_info_example : lookup 0xc0a80102 (insert_info zeroed host (node 0 null null)) ≡ some 7
unfolding agrees nodes clear
lookup-insert_info_example = lookup-insert_info zeroed host 0xc0a80102 0 null null refl

lookup-build_example :
    lookup 0x0aff0000 (build zeroed table (init_tree zeroed))
    ≡ some (port_of (longest 0x0aff0000 table))
lookup-build_example = lookup-build zeroed table 0x0aff0000 refl (omega arith)
