-- ===== src/Session/Ownership.antt =====
-- internal/cluster/raft/offline_ownership.go: which node owns an offline session's filter, read
-- from the routing table and written through the router: a call writes the store and then publishes
-- an event, which the table follows. How far each call comes is an input.
pub mod Handoff
use keel_mqtt_gateway.Prelude.{
  ◌≡◌, Bool, true, false, not, ◌&&◌, ◌||◌, Option, none, some, List, [], ◌∷◌, ◌++◌, Str, codes,
  str_eq, if◌then◌else◌,
}
use keel_mqtt_gateway.Routing.Table.{member, Table, add_local, remove_local}
use keel_mqtt_gateway.Routing.Table.Members.{has}
use keel_mqtt_gateway.Routing.Keys.{Base64, ownership_key}

abbrev pub offline_route_prefix : Str
offline_route_prefix = codes "$offlineroute/"

-- OfflineRouteKey.
abbrev pub offline_route_key : Str → Str
offline_route_key filter = offline_route_prefix ++ filter

-- The topic index behind NodesFor. An ownership key has no wildcard and starts with "$", and so the
-- answer is the nodes that are subscribed to that very key, in an order of the index's own.
pub record Index (base64 : Base64) : Type 0 where
  pub nodes_for : Str → Table → List Str
  pub nodes_for-has :
      (client_id filter node : Str) (m : Table)
      → member node (nodes_for (ownership_key base64 client_id filter) m)
        ≡ has (ownership_key base64 client_id filter) node m

abbrev pub first_node : List Str → Option Str
first_node [] = none
first_node (node ∷ nodes) = some node

-- How far Subscribe or Unsubscribe comes: the store refuses the write, it takes it and the event is
-- not published, or both.
pub data Reply : Type 0 where
  refused unpublished done : Reply

abbrev pub is_stored : Reply → Bool
is_stored refused = false
is_stored unpublished = true
is_stored done = true

-- Only then is there no error.
abbrev pub is_done : Reply → Bool
is_done refused = false
is_done unpublished = false
is_done done = true

-- The table after the events that were published, and the table that the store's keys make.
pub record Routes : Type 0 where
  pub live : Table
  pub kept : Table

abbrev pub add_if : Bool → Str → Str → Table → Table
unfolding add_local
add_if ok topic node_id m = if ok then add_local topic node_id m else m

abbrev pub subscribe_with : Reply → Str → Str → Routes → Routes
unfolding add_if
subscribe_with r topic node_id s = record {
  live = add_if (is_done r) topic node_id s.live;
  kept = add_if (is_stored r) topic node_id s.kept;
}

-- hadOwner && old != newOwner
abbrev pub remove_old : Bool → Str → Str → Option Str → Table → Table
unfolding remove_local str_eq
remove_old ok key new_owner none m = m
remove_old ok key new_owner (some old) m =
    if not (str_eq old new_owner) && ok then remove_local key old m else m

abbrev pub clear_first : Reply → Str → Option Str → Routes → Routes × Bool
unfolding remove_local
clear_first r key none s = (s, true)
clear_first refused key (some old) s = (s, false)
clear_first unpublished key (some old) s = (record s { kept = remove_local key old s.kept }, false)
clear_first done key (some old) s =
    (record { live = remove_local key old s.live; kept = remove_local key old s.kept }, true)

module _ {base64 : Base64} (index : Index base64) where
  -- CurrentOwner.
  unfoldable pub current_owner : Str → Str → Table → Option Str
  current_owner client_id filter m =
      first_node (index.nodes_for (ownership_key base64 client_id filter) m)

  -- Place: the routes, and whether it returned without an error.
  unfoldable pub place : Reply → Reply → Reply → Str → Str → Str → Routes → Routes × Bool
  unfolding current_owner subscribe_with remove_old
  place owned routed removed client_id filter new_owner s =
      let key = ownership_key base64 client_id filter in
      let old = current_owner client_id filter s.live in
      let s1 = subscribe_with owned key new_owner s in
      let s2 = subscribe_with routed (offline_route_key filter) new_owner s1 in
      let s3 : Routes = record {
        live = remove_old (is_done removed) key new_owner old s2.live;
        kept = remove_old (is_stored removed) key new_owner old s2.kept;
      } in
      if not (is_done owned)
      then (s1, false)
      else if not (is_done routed)
      then (s2, false)
      else (s3, true)

  -- Clear.
  unfoldable pub clear_offline : Reply → Str → Str → Routes → Routes × Bool
  unfolding current_owner clear_first
  clear_offline removed client_id filter s =
      clear_first removed (ownership_key base64 client_id filter)
        (current_owner client_id filter s.live) s
