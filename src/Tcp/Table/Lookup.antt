-- ===== src/Tcp/Table/Lookup.antt =====
-- What the tables of Lab15/16-tcp_stack/tcp_sock.c give back.
use ucas_computer_network_la.Prelude.{
  ℕ, zero, suc, ◌+◌, ◌≤◌, ◌<◌, ◌≡◌, ◌≢◌, refl, sym, ◌⊎◌, inl, inr, true, false, [], ◌∷◌, Option,
  none, some, arith, ◌==◌, if◌then◌else◌, Bool-cases, Option-cases, ==_refl, get_or, length,
  get_or-set_self, get_or-set_ne,
}
use ucas_computer_network_la.Tcp.{established}
use ucas_computer_network_la.Tcp.Table.{
  Sock, TcpHashTable, tcp_hash_function, is_connection, find_connection, find_port,
  tcp_sock_lookup_established, tcp_port_in_use, tcp_get_port, get_port_from, tcp_sock_set_sport,
  tcp_bind_hash, tcp_hash, add_head, is_bound,
}

-- The tables have their 256 lists.
pub record IsWhole (t : TcpHashTable) : Type 0 where
  pub established_lists : length t.established_table ≡ 256
  pub bind_lists : length t.bind_table ≡ 256

hash-lt : (a b c d : ℕ) → tcp_hash_function a b c d < 256
unfolding tcp_hash_function
hash-lt a b c d = omega arith

bound_now :
    (tsk : Sock) (t : TcpHashTable)
    → IsWhole t
    → tcp_port_in_use (tcp_bind_hash tsk t) tsk.sk_sport ≡ true
unfolding tcp_port_in_use tcp_bind_hash find_port is_bound
bound_now tsk t v =
    let h = tcp_hash_function 0 0 tsk.sk_sport 0 in
    rw
      (
        get_or-set_self t.bind_table h (tsk ∷ get_or t.bind_table h []) []
            (omega (arith, hash-lt 0 0 tsk.sk_sport 0, v.bind_lists)),
        ==_refl tsk.sk_sport,
      )
      refl

get_port_from-free :
    (n port : ℕ) (t : TcpHashTable)
    → (get_port_from n port t ≡ 0)
      ⊎ ((tcp_port_in_use t (get_port_from n port t) ≡ false)
          × (port ≤ get_port_from n port t)
          × (get_port_from n port t < port + n))
unfolding get_port_from
get_port_from-free zero port t = inl refl
get_port_from-free (suc n) port t = elim (Bool-cases (tcp_port_in_use t port)) [
  | inl used ↦ rw used (elim (get_port_from-free n (suc port) t) [
    | inl e ↦ inl e
    | inr (free, low, high) ↦ inr (free, omega (arith, low), omega (arith, high))
  ])
  | inr free ↦ rw free (inr (free, omega arith, omega arith))
]

-- What a request of a port should give: a port that was free, the one asked for if it is not 0, and
-- that is taken afterwards; or nothing, if the one asked for is taken or no port could be found.
abbrev pub Granted : Sock → ℕ → TcpHashTable → Option (Sock × TcpHashTable) → Type 0
Granted tsk port t none =
    ((port ≢ 0) × (tcp_port_in_use t port ≡ true)) ⊎ ((port ≡ 0) × (tcp_get_port t ≡ 0))
Granted tsk port t (some (tsk', t')) =
    (tsk'.id ≡ tsk.id)
    × ((port ≡ 0) ⊎ (tsk'.sk_sport ≡ port))
    × (tsk'.sk_sport ≢ 0)
    × (tcp_port_in_use t tsk'.sk_sport ≡ false)
    × (tcp_port_in_use t' tsk'.sk_sport ≡ true)

-- A socket that asks for a port other than 0 gets it unless one in the table has it; one that asks
-- for port 0 gets a port that was free, unless the search finds none. A port that is got is in use
-- afterwards. The tables have their 256 lists.
pub tcp_sock_set_sport-Granted :
    (tsk : Sock) (port : ℕ) (t : TcpHashTable)
    → IsWhole t
    → Granted tsk port t (tcp_sock_set_sport tsk port t)
unfolding tcp_sock_set_sport tcp_get_port
tcp_sock_set_sport-Granted tsk port t v = elim (Bool-cases (port == 0)) [
  | inl any ↦ rw any (elim (Bool-cases (tcp_get_port t == 0)) [
    | inl full ↦ rw full (ground arith)
    | inr found ↦ rw found (elim (get_port_from-free 11111 12345 t) [
      | inl zero_port ↦ absurd (ground arith)
      | inr (free, low, high) ↦ (
        refl,
        inl (ground arith),
        ground arith,
        free,
        bound_now (record tsk { sk_sport = tcp_get_port t }) t v,
      )
    ])
  ])
  | inr this ↦ rw this (elim (Bool-cases (tcp_port_in_use t port)) [
    | inl used ↦ rw used (ground arith)
    | inr free ↦
        rw free (refl, inr refl, ground arith, free, bound_now (record tsk { sk_sport = port }) t v)
  ])
]

same_hash :
    (tsk : Sock) (saddr daddr sport dport : ℕ)
    → is_connection saddr daddr sport dport tsk ≡ true
    → tcp_hash_function saddr daddr sport dport
      ≡ tcp_hash_function tsk.sk_sip tsk.sk_dip tsk.sk_sport tsk.sk_dport
unfolding is_connection
same_hash tsk saddr daddr sport dport e =
    let s : saddr ≡ tsk.sk_sip = ground arith in
    let d : daddr ≡ tsk.sk_dip = ground arith in
    let sp : sport ≡ tsk.sk_sport = ground arith in
    let dp : dport ≡ tsk.sk_dport = ground arith in rw (s, d, sp, dp) refl

added :
    (tsk : Sock) (t : TcpHashTable) (saddr daddr sport dport : ℕ)
    → IsWhole t
    → let h = tcp_hash_function tsk.sk_sip tsk.sk_dip tsk.sk_sport tsk.sk_dport in
      find_connection saddr daddr sport dport
        (get_or (add_head h tsk t.established_table) (tcp_hash_function saddr daddr sport dport) [])
      ≡ (if is_connection saddr daddr sport dport tsk
          then some tsk
          else tcp_sock_lookup_established t saddr daddr sport dport)
unfolding tcp_sock_lookup_established find_connection
added tsk t saddr daddr sport dport v =
    let h = tcp_hash_function tsk.sk_sip tsk.sk_dip tsk.sk_sport tsk.sk_dport in
    let k = tcp_hash_function saddr daddr sport dport in
    let new = tsk ∷ get_or t.established_table h [] in
    let inside : h < length t.established_table =
      omega (arith, v.established_lists, hash-lt tsk.sk_sip tsk.sk_dip tsk.sk_sport tsk.sk_dport) in
    elim (Bool-cases (h == k)) [
      | inl same ↦
          let at : h ≡ k = ground arith in
          rw (sym at, get_or-set_self t.established_table h new [] inside) refl
      | inr other ↦
          let apart : h ≢ k = ground arith in
          let not_it : is_connection saddr daddr sport dport tsk ≡ false =
            elim (Bool-cases (is_connection saddr daddr sport dport tsk)) [
              | inl it ↦ absurd (apart (sym (same_hash tsk saddr daddr sport dport it)))
              | inr no_match ↦ no_match
            ] in
          rw (not_it, get_or-set_ne t.established_table h k new [] apart) refl
    ]

-- What tcp_hash should give for a connection: nothing, if one with its addresses and ports is there,
-- or the tables in which it is found, and every other connection as before.
abbrev pub Entered : Sock → TcpHashTable → Option TcpHashTable → Type 0
Entered tsk t none =
    (other : Sock) × (tcp_sock_lookup_established t tsk.sk_sip tsk.sk_dip tsk.sk_sport tsk.sk_dport
      ≡ some other)
Entered tsk t (some t') =
    (tcp_sock_lookup_established t tsk.sk_sip tsk.sk_dip tsk.sk_sport tsk.sk_dport ≡ none)
    × ((saddr daddr sport dport : ℕ)
        → tcp_sock_lookup_established t' saddr daddr sport dport ≡ (
            if is_connection saddr daddr sport dport tsk
            then some tsk
            else tcp_sock_lookup_established t saddr daddr sport dport))

-- tcp_hash refuses a connection exactly where one with the same addresses and ports is in the table;
-- else the connection is found from then on, and every other one as before. The tables have their
-- 256 lists.
pub tcp_hash-Entered :
    (tsk : Sock) (t : TcpHashTable) → IsWhole t → Entered tsk t (tcp_hash established tsk t)
unfolding tcp_hash tcp_sock_lookup_established
tcp_hash-Entered tsk t v =
    elim (Option-cases
      (tcp_sock_lookup_established t tsk.sk_sip tsk.sk_dip tsk.sk_sport tsk.sk_dport)) [
        | inl fresh ↦
            rw (fresh, tcp_hash)
              (fresh, λ saddr daddr sport dport. added tsk t saddr daddr sport dport v)
        | inr (other, e) ↦ rw (e, tcp_hash) (other, e)
      ]
