-- ===== src/Mospf.antt =====
-- The link state routing of Lab9/11-mopsf: mospf_daemon.c, mospf_proto.c and mospf_database.c; here
-- the state, and what the router sends and hears of its neighbours. A
-- message is the fields that its receiver reads; the byte order, the checksum and the Ethernet
-- header are left out. The turns of the threads are one step each, as the lock makes them.
pub mod Neighbours
pub mod Updates
pub mod Database
pub mod Graph
pub mod Routes
mod Tests
use Prim.Native.Nat.{bit_and}
use ucas_computer_network_la.Prelude.{
  ℕ, zero, suc, ◌+◌, ◌-◌, ◌*◌, ◌%◌, ◌^◌, Bool, true, false, not, ◌&&◌, ◌||◌, List, [], ◌∷◌, ◌++◌,
  Option, none, some, ltb, leb, ◌==◌, if◌then◌else◌, length, map, keep_if, get_or, set,
}

abbrev pub mospf_version : ℕ
mospf_version = 2

abbrev pub mospf_default_helloint : ℕ
mospf_default_helloint = 5

abbrev pub mospf_database_timeout : ℕ
mospf_database_timeout = 40

abbrev pub mospf_max_lsu_ttl : ℕ
mospf_max_lsu_ttl = 255

-- `mospf_nbr_t`.
pub record Nbr : Type 0 where
  pub nbr_id : ℕ
  pub nbr_ip : ℕ
  pub nbr_mask : ℕ
  pub alive : ℕ

-- The fields of `iface_info_t` that the daemon uses.
pub record Iface : Type 0 where
  pub ip : ℕ
  pub mask : ℕ
  pub helloint : ℕ
  pub num_nbr : ℕ
  pub nbr_list : List Nbr

-- `struct mospf_lsa`.
pub record Lsa : Type 0 where
  pub network : ℕ
  pub mask : ℕ
  pub rid : ℕ

-- `mospf_db_entry_t`; `room` is the number of elements that `array` was allocated for.
pub record DbEntry : Type 0 where
  pub rid : ℕ
  pub seq : ℕ
  pub nadv : ℕ
  pub alive : ℕ
  pub room : ℕ
  pub array : List Lsa

-- The fields of `ustack_t` that the daemon uses, and the database.
pub record Router : Type 0 where
  pub area_id : ℕ
  pub router_id : ℕ
  pub sequence_num : ℕ
  pub iface_list : List Iface
  pub mospf_db : List DbEntry

-- A link state update, with the addresses of its IP header; `nadv` is the number announced, and
-- `lsa` what stands behind the header of the update.
pub record LsuPacket : Type 0 where
  pub saddr : ℕ
  pub daddr : ℕ
  pub rid : ℕ
  pub seq : ℕ
  pub ttl : ℕ
  pub nadv : ℕ
  pub lsa : List Lsa

-- `ips` are the address and the mask of each interface, the first of which names the router.
pub mospf_init : (ip mask : ℕ) → List (ℕ × ℕ) → Router
mospf_init ip mask ips = record {
  area_id = 0;
  router_id = ip;
  sequence_num = 0;
  iface_list =
      map
        (λ (a, m). record {
          ip = a;
          mask = m;
          helloint = mospf_default_helloint;
          num_nbr = 0;
          nbr_list = [];
        })
        ((ip, mask) ∷ ips);
  mospf_db = [];
}

-- The number of elements that sending_mospf_lsu allocates, and those that it writes.
pub count_nbr : List Iface → ℕ
count_nbr [] = 0
count_nbr (i ∷ is) = (if i.num_nbr == 0 then 1 else i.num_nbr) + count_nbr is

pub lsa_of_nbr : Nbr → Lsa
lsa_of_nbr n = record { network = bit_and n.nbr_ip n.nbr_mask; mask = n.nbr_mask; rid = n.nbr_id }

pub lsas_of_iface : Iface → List Lsa
lsas_of_iface i =
    if i.num_nbr == 0
    then record { network = bit_and i.ip i.mask; mask = i.mask; rid = 0 } ∷ []
    else map lsa_of_nbr i.nbr_list

pub lsa_array : List Iface → List Lsa
lsa_array [] = []
lsa_array (i ∷ is) = lsas_of_iface i ++ lsa_array is

-- The packets to the neighbours on the interfaces.
pub to_nbrs : Router → Iface → List Nbr → List LsuPacket
to_nbrs r i [] = []
to_nbrs r i (n ∷ ns) =
    record {
      saddr = i.ip;
      daddr = n.nbr_ip;
      rid = r.router_id;
      seq = r.sequence_num;
      ttl = mospf_max_lsu_ttl;
      nadv = count_nbr r.iface_list;
      lsa = lsa_array r.iface_list;
    }
    ∷ to_nbrs r i ns

pub to_all : Router → List Iface → List LsuPacket
to_all r [] = []
to_all r (i ∷ is) = to_nbrs r i i.nbr_list ++ to_all r is

pub sending_mospf_lsu : Router → Router × List LsuPacket
sending_mospf_lsu r =
    let r' = record r { sequence_num = (r.sequence_num + 1) % 2 ^ 16 } in
    (r', to_all r' r.iface_list)

-- The loop of checking_nbr_thread over the neighbours of `i`, between the interfaces before it and
-- after it; `kept` are the neighbours that it has passed.
pub check_nbrs :
    (before after : List Iface) → Iface → (kept rest : List Nbr) → Router → Router × List LsuPacket
check_nbrs before after i kept [] r =
    (record r { iface_list = before ++ record i { nbr_list = kept } ∷ after }, [])
check_nbrs before after i kept (n ∷ ns) r =
    let n' : Nbr = record n { alive = (n.alive + 1) % 256 } in
    elim (ltb (3 * i.helloint) n'.alive) [
      | true ↦
          let i' : Iface = record i { num_nbr = i.num_nbr - 1 } in
          let (r', sent) =
            sending_mospf_lsu
              (record r { iface_list = before ++ record i' { nbr_list = kept ++ ns } ∷ after }) in
          let (r'', more) = check_nbrs before after i' kept ns r' in (r'', sent ++ more)
      | false ↦ check_nbrs before after i (kept ++ n' ∷ []) ns r
    ]

-- The outer loop, with the interfaces that it has passed. The one that was just checked is the one
-- behind `before`.
pub check_ifaces : (before rest : List Iface) → Router → Router × List LsuPacket
check_ifaces before [] r = (r, [])
check_ifaces before (i ∷ is) r =
    let (r', sent) = check_nbrs before is i [] i.nbr_list r in
    let (r'', more) = check_ifaces (before ++ get_or r'.iface_list (length before) i ∷ []) is r' in
    (r'', sent ++ more)

pub checking_nbr : Router → Router × List LsuPacket
checking_nbr r = check_ifaces [] r.iface_list r

pub checking_database : List DbEntry → List DbEntry
checking_database [] = []
checking_database (e ∷ es) =
    let rest = checking_database es in
    if leb mospf_database_timeout (e.alive + 1)
    then rest
    else record e { alive = e.alive + 1 } ∷ rest

-- The search of handle_mospf_hello: the neighbour of that id is alive; none if there is none.
pub revive : ℕ → List Nbr → Option (List Nbr)
revive rid [] = none
revive rid (n ∷ ns) =
    let rest = revive rid ns in
    if n.nbr_id == rid
    then some (record n { alive = 0 } ∷ ns)
    else (elim rest [ none ↦ none | some ns' ↦ some (n ∷ ns') ])

pub new_nbr : (rid saddr mask : ℕ) → Nbr
new_nbr rid saddr mask = record { nbr_id = rid; nbr_ip = saddr; nbr_mask = mask; alive = 0 }

abbrev pub no_iface : Iface
no_iface = record { ip = 0; mask = 0; helloint = 0; num_nbr = 0; nbr_list = [] }

-- A hello on interface number `k`.
pub handle_mospf_hello : ℕ → (rid saddr mask : ℕ) → Router → Router × List LsuPacket
handle_mospf_hello k rid saddr mask r =
    let i = get_or r.iface_list k no_iface in
    elim (revive rid i.nbr_list) [
      | some ns ↦ (record r { iface_list = set r.iface_list k (record i { nbr_list = ns }) }, [])
      | none ↦ sending_mospf_lsu (record r {
        iface_list = set r.iface_list k (record i {
          num_nbr = i.num_nbr + 1;
          nbr_list = i.nbr_list ++ new_nbr rid saddr mask ∷ [];
        });
      })
    ]
