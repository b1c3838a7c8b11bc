-- ===== src/Arp/Sweep.antt =====
-- The requests of Lab10/12-nat/arpcache.c do not wait for ever.
use ucas_computer_network_la.Prelude.{
  ℕ, suc, ◌-◌, ◌≤◌, ◌<◌, ◌≡◌, refl, inl, inr, false, List, [], ◌∷◌, arith, ltb, Bool-cases,
}
use ucas_computer_network_la.Arp.{ArpReq, ArpCache, sweep_requests, arpcache_sweep}

-- Each request was sent before `now` and has been sent `k` times or more.
abbrev pub Due : ℕ → ℕ → List ArpReq → Type 0
Due now k [] = Unit {0}
Due now k (r ∷ rs) = (r.sent < now) × (k ≤ r.retries) × Due now k rs

-- The cache after a sweep at each of these times.
pub sweeps : List ℕ → ArpCache → ArpCache
sweeps [] c = c
sweeps (t ∷ ts) c = sweeps ts (arpcache_sweep t c).0

sweep_requests-Due :
    (now t k : ℕ) (rs : List ArpReq)
    → now ≤ t
    → Due now k rs
    → Due now (suc k) (sweep_requests t rs).0
unfolding sweep_requests
sweep_requests-Due now t k [] h d = tt
sweep_requests-Due now t k (r ∷ rs) h d =
    let rest = sweep_requests-Due now t k rs h d.2 in
    let waited : ltb (t - r.sent) 1 ≡ false = ground (arith, d.0, h) in
    rw waited (elim (Bool-cases (ltb r.retries 5)) [
      | inl again ↦ rw again (d.0, omega (arith, d.1), rest)
      | inr over ↦ rw over rest
    ])

sweep_requests-over :
    (now t : ℕ) (rs : List ArpReq) → now ≤ t → Due now 5 rs → (sweep_requests t rs).0 ≡ []
unfolding sweep_requests
sweep_requests-over now t [] h d = refl
sweep_requests-over now t (r ∷ rs) h d =
    let waited : ltb (t - r.sent) 1 ≡ false = ground (arith, d.0, h) in
    let over : ltb r.retries 5 ≡ false = ground (arith, d.1) in
    rw (waited, over) (sweep_requests-over now t rs h d.2)

-- Requests that nobody answers are gone after five sweeps, whenever these come: each request was
-- sent before all of them, and at least once.
pub sweeps-empty :
    (now t1 t2 t3 t4 t5 : ℕ) (c : ArpCache)
    → now ≤ t1
    → now ≤ t2
    → now ≤ t3
    → now ≤ t4
    → now ≤ t5
    → Due now 1 c.req_list
    → (sweeps (t1 ∷ t2 ∷ t3 ∷ t4 ∷ t5 ∷ []) c).req_list ≡ []
unfolding sweeps arpcache_sweep
sweeps-empty now t1 t2 t3 t4 t5 c n1 n2 n3 n4 n5 d =
    let r1 = (sweep_requests t1 c.req_list).0 in
    let r2 = (sweep_requests t2 r1).0 in
    let r3 = (sweep_requests t3 r2).0 in
    let r4 = (sweep_requests t4 r3).0 in
    let d1 = sweep_requests-Due now t1 1 c.req_list n1 d in
    let d2 = sweep_requests-Due now t2 2 r1 n2 d1 in
    let d3 = sweep_requests-Due now t3 3 r2 n3 d2 in
    let d4 = sweep_requests-Due now t4 4 r3 n4 d3 in sweep_requests-over now t5 r4 n5 d4
