-- ===== src/Switch/Table.antt =====
-- The port table of Lab4/05-switching/mac.c as a map from addresses to interfaces.
use ucas_computer_network_la.Prelude.{
  ℕ, zero, suc, ◌+◌, ◌≤◌, ◌≡◌, refl, sym, ap, subst, ◌∙◌, ◌↔◌, inl, inr, true, List, [], ◌∷◌, ◌++◌,
  Option, none, some, arith, if◌then◌else◌, Bool-cases, length, get_or, set, length-set,
  get_or-set_self, get_or-set_ne, replicate, length-replicate,
}
use ucas_computer_network_la.Switch.{
  Entry, Table, same_mac, find, lookup_port, touch, touch_all, insert_mac_port, init_mac_port_table,
}
use ucas_computer_network_la.Hash.{hash8, hash8-lt}

pub same_mac_iff : (a b : List ℕ) → (same_mac a b ≡ true) ↔ (a ≡ b)
unfolding same_mac
same_mac_iff [] [] = (λ _. refl, λ _. refl)
same_mac_iff [] (y ∷ ys) = (λ h. cc, λ h. cc)
same_mac_iff (x ∷ xs) [] = (λ h. cc, λ h. cc)
same_mac_iff (x ∷ xs) (y ∷ ys) =
    (ground (arith, same_mac_iff xs ys), ground (arith, same_mac_iff xs ys))

hash8-same : (a b : List ℕ) → same_mac a b ≡ true → hash8 a ≡ hash8 b
hash8-same a b h = ap hash8 ((same_mac_iff a b).0 h)

-- Every entry of the list has the hash value `k`.
abbrev pub HashIs : ℕ → List Entry → Type 0
HashIs k [] = Unit {0}
HashIs k (e ∷ es) = (hash8 e.mac ≡ k) × HashIs k es

abbrev pub HashedFrom : ℕ → Table → Type 0
HashedFrom k [] = Unit {0}
HashedFrom k (b ∷ bs) = HashIs k b × HashedFrom (suc k) bs

-- Each entry stands in the list of its hash value, and there is a list for each value.
pub record IsHashed (t : Table) : Type 0 where
  pub hashed : HashedFrom 0 t
  pub lists : length t ≡ 256

-- What a search of one list for `m` finds, and what a lookup of `m'` finds after it.
abbrev Touched : List ℕ → List ℕ → ℕ → List Entry → Option (List Entry) → Type 0
Touched m m' i es none = find m es ≡ none
Touched m m' i es (some es') = find m' es' ≡ (if same_mac m m' then some i else find m' es)

touch-Touched : (m m' : List ℕ) (i now : ℕ) (es : List Entry) → Touched m m' i es (touch m i now es)
unfolding touch find
touch-Touched m m' i now [] = refl
touch-Touched m m' i now (e ∷ es) = elim (Bool-cases (same_mac e.mac m)) [
  | inl hit ↦
      rw (hit, touch)
        (let same : e.mac ≡ m = (same_mac_iff e.mac m).0 hit in
          rw (ap (λ a. same_mac a m') same) (ground arith))
  | inr miss ↦ ground (arith, touch-Touched m m' i now es, same_mac_iff m m')
]

-- A search that finds `m` in a list of hash value `k` keeps the list so, and shows the hash of `m`.
abbrev Rehashed : List ℕ → ℕ → Option (List Entry) → Type 0
Rehashed m k none = Unit {0}
Rehashed m k (some es') = HashIs k es' × (hash8 m ≡ k)

touch-Rehashed :
    (m : List ℕ) (i now k : ℕ) (es : List Entry) → HashIs k es → Rehashed m k (touch m i now es)
unfolding touch
touch-Rehashed m i now k [] w = tt
touch-Rehashed m i now k (e ∷ es) w = elim (Bool-cases (same_mac e.mac m)) [
  | inl hit ↦ rw (hit, touch) (w, ap hash8 (sym ((same_mac_iff e.mac m).0 hit)) ∙ w.0)
  | inr miss ↦ ground (arith, touch-Rehashed m i now k es)
]

abbrev RehashedAll : List ℕ → ℕ → Table → Option Table → Type 0
RehashedAll m k bs none = Unit {0}
RehashedAll m k bs (some bs') = HashedFrom k bs' × (k ≤ hash8 m) × (length bs' ≡ length bs)

touch_all-RehashedAll :
    (m : List ℕ) (i now k : ℕ) (bs : Table)
    → HashedFrom k bs
    → RehashedAll m k bs (touch_all m i now bs)
unfolding touch_all
touch_all-RehashedAll m i now k [] w = tt
touch_all-RehashedAll m i now k (b ∷ bs) w =
    ground (arith, touch-Rehashed m i now k b, touch_all-RehashedAll m i now (suc k) bs)

-- What the search of the whole table for `m` does to a lookup of `m'` in list `j`, its own.
abbrev TouchedAll : List ℕ → List ℕ → ℕ → Table → ℕ → Option Table → Type 0
TouchedAll m m' i bs j none = find m (get_or bs j []) ≡ none
TouchedAll m m' i bs j (some bs') =
    find m' (get_or bs' j []) ≡ (if same_mac m m' then some i else find m' (get_or bs j []))

touch_all-TouchedAll :
    (m m' : List ℕ) (i now k : ℕ) (bs : Table) (j : ℕ)
    → HashedFrom k bs
    → hash8 m' ≡ k + j
    → TouchedAll m m' i bs j (touch_all m i now bs)
unfolding touch_all find
touch_all-TouchedAll m m' i now k [] j w h = refl
touch_all-TouchedAll m m' i now k (b ∷ bs) zero w h = ground (
  arith,
  touch-Touched m m' i now b,
  touch_all-RehashedAll m i now (suc k) bs w.1,
  hash8-same m m',
)
touch_all-TouchedAll m m' i now k (b ∷ bs) (suc j) w h = ground (
  arith,
  touch-Touched m m' i now b,
  touch-Rehashed m i now k b w.0,
  touch_all-TouchedAll m m' i now (suc k) bs j w.1,
  hash8-same m m',
)

-- Lookups after a new entry at the end of a list, and the invariant of that list.
find-append :
    (m : List ℕ) (es : List Entry) (e : Entry)
    → find m (es ++ e ∷ []) ≡ elim (find m es) [
      | some i ↦ some i
      | none ↦ (if same_mac e.mac m then some e.iface else none)
    ]
unfolding find
find-append m [] e = ground arith
find-append m (x ∷ es) e = ground (arith, find-append m es e)

HashIs-append :
    (k : ℕ) (es : List Entry) (e : Entry) → HashIs k es → hash8 e.mac ≡ k → HashIs k (es ++ e ∷ [])
HashIs-append k [] e w h = (h, tt)
HashIs-append k (x ∷ es) e w h = (w.0, HashIs-append k es e w.1 h)

HashedFrom-get : (k : ℕ) (bs : Table) (j : ℕ) → HashedFrom k bs → HashIs (k + j) (get_or bs j [])
HashedFrom-get k [] j w = tt
HashedFrom-get k (b ∷ bs) zero w = subst (λ n. HashIs n b) {x = k} (omega arith) w.0
HashedFrom-get k (b ∷ bs) (suc j) w =
    subst (λ n. HashIs n (get_or bs j [])) {x = suc k + j} (omega arith)
      (HashedFrom-get (suc k) bs j w.1)

HashedFrom-set :
    (k : ℕ) (bs : Table) (j : ℕ) (b : List Entry)
    → HashedFrom k bs
    → HashIs (k + j) b
    → HashedFrom k (set bs j b)
HashedFrom-set k [] j b w h = tt
HashedFrom-set k (x ∷ bs) zero b w h = (subst (λ n. HashIs n b) {x = k + 0} (omega arith) h, w.1)
HashedFrom-set k (x ∷ bs) (suc j) b w h = (
  w.0,
  HashedFrom-set (suc k) bs j b w.1 (subst (λ n. HashIs n b) {x = k + suc j} (omega arith) h),
)

-- An insertion keeps every entry in the list of its hash.
pub insert_mac_port-IsHashed :
    (m : List ℕ) (i now : ℕ) (t : Table) → IsHashed t → IsHashed (insert_mac_port m i now t)
unfolding insert_mac_port
insert_mac_port-IsHashed m i now t v =
    let h : ℕ = hash8 m in
    let old = get_or t h [] in
    let e : Entry = record { mac = m; iface = i; visited = now } in
    ground (
      arith,
      touch_all-RehashedAll m i now 0 t v.hashed,
      HashedFrom-set 0 t h (old ++ e ∷ []) v.hashed
          (HashIs-append (0 + h) old e (HashedFrom-get 0 t h v.hashed) (omega arith)),
      length-set t h (old ++ e ∷ []),
    )

-- After an insertion its address is found on its interface, and every other address as before.
pub lookup_port-insert_mac_port :
    (m m' : List ℕ) (i now : ℕ) (t : Table)
    → IsHashed t
    → lookup_port m' (insert_mac_port m i now t)
      ≡ (if same_mac m m' then some i else lookup_port m' t)
unfolding lookup_port insert_mac_port
lookup_port-insert_mac_port m m' i now t v =
    let e : Entry = record { mac = m; iface = i; visited = now } in
    let new = get_or t (hash8 m) [] ++ e ∷ [] in
    ground (
      arith,
      touch_all-TouchedAll m m' i now 0 t (hash8 m') v.hashed (omega arith),
      get_or-set_self t (hash8 m) new [],
      get_or-set_ne t (hash8 m) (hash8 m') new [],
      find-append m' (get_or t (hash8 m) []) e,
      hash8-lt m,
      hash8-same m m',
      same_mac_iff m m',
    )

HashedFrom-replicate : (n k : ℕ) → HashedFrom k (replicate n [])
HashedFrom-replicate zero k = tt
HashedFrom-replicate (suc n) k = (tt, HashedFrom-replicate n (suc k))

-- The empty table is in order.
pub init_mac_port_table-IsHashed : IsHashed init_mac_port_table
unfolding init_mac_port_table
init_mac_port_table-IsHashed = record {
  hashed = HashedFrom-replicate 256 0;
  lists = length-replicate {A = List Entry} 256 [];
}
