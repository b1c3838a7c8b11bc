-- ===== src/Mospf/Updates.antt =====
-- The link state updates of Lab9/11-mopsf/mospf_daemon.c, and the choice by the type of a message.
use ucas_computer_network_la.Prelude.{
  ℕ, ◌+◌, ◌%◌, ◌^◌, take, Bool, true, false, not, ◌||◌, List, [], ◌∷◌, ◌++◌, Option, none, some,
  ltb, ◌==◌, if◌then◌else◌,
}
use ucas_computer_network_la.Mospf.{
  mospf_version, Nbr, Iface, DbEntry, Router, LsuPacket, handle_mospf_hello,
}

-- The loop of handle_mospf_lsu: whether an entry of the router is there, whether it was updated, and
-- the entries; none where an update writes past the end of the array.
pub data Search : Type 0 where
  overrun : Search
  searched : (find updated : Bool) → List DbEntry → Search

-- The number of turns of a loop up to the `int` that the word `nadv` is: none for a negative one.
unfoldable pub turns : ℕ → ℕ
turns nadv = if ltb nadv (2 ^ 31) then nadv else 0

unfoldable pub renewed : LsuPacket → DbEntry → DbEntry
renewed p e = record e { seq = p.seq; nadv = p.nadv; alive = 0; array = take (turns p.nadv) p.lsa }

unfoldable pub put_first : DbEntry → Search → Search
put_first e overrun = overrun
put_first e (searched find updated es) = searched find updated (e ∷ es)

unfoldable pub found_entry : Bool → DbEntry → Search → Search
found_entry new e overrun = overrun
found_entry new e (searched find updated es) =
    searched true (if new then true else updated) (e ∷ es)

unfoldable pub search_db : LsuPacket → List DbEntry → Search
search_db p [] = searched false false []
search_db p (e ∷ es) =
    let rest = search_db p es in
    if e.rid == p.rid
    then (if ltb e.seq p.seq
        then (if ltb e.room (turns p.nadv) then overrun else found_entry true (renewed p e) rest)
        else found_entry false e rest)
    else put_first e rest

unfoldable pub new_entry : LsuPacket → DbEntry
new_entry p = record {
  rid = p.rid;
  seq = p.seq;
  nadv = p.nadv;
  alive = 0;
  room = turns p.nadv;
  array = take (turns p.nadv) p.lsa;
}

-- The copies of an update for the neighbours other than its author.
unfoldable pub forward_nbrs : LsuPacket → Iface → List Nbr → List LsuPacket
forward_nbrs p i [] = []
forward_nbrs p i (n ∷ ns) =
    let rest = forward_nbrs p i ns in
    if n.nbr_id == p.rid then rest else record p { saddr = i.ip; daddr = n.nbr_ip } ∷ rest

unfoldable pub forward_all : LsuPacket → List Iface → List LsuPacket
forward_all p [] = []
forward_all p (i ∷ is) = forward_nbrs p i i.nbr_list ++ forward_all p is

-- `lsu->ttl --` on a u8.
unfoldable pub forward : LsuPacket → List Iface → List LsuPacket
forward p ifaces =
    let ttl = (p.ttl + 255) % 256 in
    if ltb 0 ttl then forward_all (record p { ttl = ttl }) ifaces else []

-- The router after it and the packets sent; none for a write past the end of an array.
unfoldable pub handle_mospf_lsu : LsuPacket → Router → Option (Router × List LsuPacket)
handle_mospf_lsu p r = elim (search_db p r.mospf_db) [
  | overrun ↦ none
  | searched true true es ↦ some (record r { mospf_db = es }, forward p r.iface_list)
  | searched true false es ↦ some (r, [])
  | searched false updated es ↦
      some (record r { mospf_db = es ++ new_entry p ∷ [] }, forward p r.iface_list)
]

-- A message by its type: MOSPF_TYPE_HELLO, MOSPF_TYPE_LSU or another.
pub data Body : Type 0 where
  hello : (rid saddr mask : ℕ) → Body
  lsu : LsuPacket → Body
  unknown : Body

unfoldable pub handle_mospf_packet :
    (version aid : ℕ) (checksum_ok : Bool) → ℕ → Body → Router → Option (Router × List LsuPacket)
handle_mospf_packet version aid checksum_ok k body r =
    if not (version == mospf_version) || not checksum_ok || not (aid == r.area_id)
    then some (r, [])
    else (elim body [
      | hello rid saddr mask ↦ some (handle_mospf_hello k rid saddr mask r)
      | lsu p ↦ handle_mospf_lsu p r
      | unknown ↦ some (r, [])
    ])
