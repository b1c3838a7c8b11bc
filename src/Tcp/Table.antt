-- ===== src/Tcp/Table.antt =====
-- The hash tables of sockets, Lab15/16-tcp_stack/tcp_hash.h and tcp_sock.c. An entry is the number of
-- a socket with the addresses and ports that the searches read.
pub mod Lookup
pub mod Search
use Prim.Native.Nat.{bit_xor}
use ucas_computer_network_la.Prelude.{
  ℕ, zero, suc, ◌+◌, ◌-◌, ◌%◌, Bool, true, false, not, ◌&&◌, ◌||◌, List, [], ◌∷◌, Option, none,
  some, ltb, leb, ◌==◌, if◌then◌else◌, get_or, set, replicate, keep_if,
}
use ucas_computer_network_la.Hash.{hash8, hash_8bits, bytes_u32, bytes_u16}
use ucas_computer_network_la.Tcp.{TcpState, Cb, closed, listen, port_min, port_max}

pub record Sock : Type 0 where
  pub id : ℕ
  pub sk_sip : ℕ
  pub sk_dip : ℕ
  pub sk_sport : ℕ
  pub sk_dport : ℕ

-- `struct tcp_hash_table`.
pub record TcpHashTable : Type 0 where
  pub established_table : List (List Sock)
  pub listen_table : List (List Sock)
  pub bind_table : List (List Sock)

unfoldable pub init_tcp_stack : TcpHashTable
init_tcp_stack = record {
  established_table = replicate hash_8bits [];
  listen_table = replicate hash_8bits [];
  bind_table = replicate hash_8bits [];
}

unfoldable pub tcp_hash_function : (saddr daddr sport dport : ℕ) → ℕ
tcp_hash_function saddr daddr sport dport =
    bit_xor
      (bit_xor (bit_xor (hash8 (bytes_u32 saddr)) (hash8 (bytes_u32 daddr)))
        (hash8 (bytes_u16 sport)))
      (hash8 (bytes_u16 dport))
    % 256

-- list_add_head to the list of a hash.
abbrev pub add_head : ℕ → Sock → List (List Sock) → List (List Sock)
add_head h tsk table = set table h (tsk ∷ get_or table h [])

pub is_connection : (saddr daddr sport dport : ℕ) → Sock → Bool
is_connection saddr daddr sport dport e =
    (saddr == e.sk_sip && daddr == e.sk_dip) && sport == e.sk_sport && dport == e.sk_dport

unfoldable pub find_connection : (saddr daddr sport dport : ℕ) → List Sock → Option Sock
find_connection saddr daddr sport dport [] = none
find_connection saddr daddr sport dport (e ∷ es) =
    if is_connection saddr daddr sport dport e
    then some e
    else find_connection saddr daddr sport dport es

pub find_port : ℕ → List Sock → Option Sock
find_port sport [] = none
find_port sport (e ∷ es) = if sport == e.sk_sport then some e else find_port sport es

unfoldable pub tcp_sock_lookup_established :
    TcpHashTable → (saddr daddr sport dport : ℕ) → Option Sock
tcp_sock_lookup_established t saddr daddr sport dport =
    find_connection saddr daddr sport dport
      (get_or t.established_table (tcp_hash_function saddr daddr sport dport) [])

pub tcp_sock_lookup_listen : TcpHashTable → ℕ → Option Sock
tcp_sock_lookup_listen t sport =
    find_port sport (get_or t.listen_table (tcp_hash_function 0 0 sport 0) [])

pub tcp_sock_lookup : TcpHashTable → Cb → Option Sock
tcp_sock_lookup t cb = elim (tcp_sock_lookup_established t cb.daddr cb.saddr cb.dport cb.sport) [
  | some tsk ↦ some tsk
  | none ↦ tcp_sock_lookup_listen t cb.dport
]

pub tcp_bind_hash : Sock → TcpHashTable → TcpHashTable
tcp_bind_hash tsk t = record t {
  bind_table = add_head (tcp_hash_function 0 0 tsk.sk_sport 0) tsk t.bind_table;
}

is_bound : Option Sock → Bool
is_bound none = false
is_bound (some tsk) = true

pub tcp_port_in_use : TcpHashTable → ℕ → Bool
tcp_port_in_use t sport =
    is_bound (find_port sport (get_or t.bind_table (tcp_hash_function 0 0 sport 0) []))

-- The first port of `n` from `port` on that is not in use, or 0.
get_port_from : ℕ → ℕ → TcpHashTable → ℕ
get_port_from zero port t = 0
get_port_from (suc n) port t =
    let rest = get_port_from n (suc port) t in if not (tcp_port_in_use t port) then port else rest

pub tcp_get_port : TcpHashTable → ℕ
tcp_get_port t = get_port_from (port_max - port_min) port_min t

-- `none` is the result -1; the socket with its port, and the tables.
pub tcp_sock_set_sport : Sock → ℕ → TcpHashTable → Option (Sock × TcpHashTable)
tcp_sock_set_sport tsk port t =
    let port' = if port == 0 then tcp_get_port t else port in
    let tsk' = record tsk { sk_sport = port' } in
    if (not (port == 0) && tcp_port_in_use t port) || (port == 0 && port' == 0)
    then none
    else some (tsk', tcp_bind_hash tsk' t)

-- The branches of tcp_hash, for a socket in the state given; `none` is the result -1.
unfoldable pub tcp_hash : TcpState → Sock → TcpHashTable → Option TcpHashTable
tcp_hash closed tsk t = none
tcp_hash listen tsk t =
    some (record t {
      listen_table = add_head (tcp_hash_function 0 0 tsk.sk_sport 0) tsk t.listen_table;
    })
tcp_hash state tsk t =
    elim (tcp_sock_lookup_established t tsk.sk_sip tsk.sk_dip tsk.sk_sport tsk.sk_dport) [
      | some other ↦ none
      | none ↦ some (record t {
        established_table =
            add_head (tcp_hash_function tsk.sk_sip tsk.sk_dip tsk.sk_sport tsk.sk_dport) tsk
              t.established_table;
      })
    ]
