-- ===== src/Routing/Table.antt =====
-- internal/cluster/routing/router.go: the table byNode, the writes to the store with the events that
-- they publish, and the rebuilding of the table from the store's keys. A set is a list of its
-- members. Whether the store and the channel take a write are inputs. The topic index and the
-- offline members of shared groups, which stand beside the table, are not part of this.
pub mod Members
pub mod Agreement
use keel_mqtt_gateway.Prelude.{
  ℕ, Bool, true, false, not, Option, none, some, List, [], ◌∷◌, ◌++◌, map, Str, Dict, codes, str_eq,
  lookup, insert, delete, any, keep, is_nil, if◌then◌else◌,
}
use keel_mqtt_gateway.Routing.Keys.{route_key, parse_route_key}

abbrev pub member : Str → List Str → Bool
member x = any (λ y. str_eq y x)

abbrev pub set_add : Str → List Str → List Str
set_add x xs = if member x xs then xs else xs ++ x ∷ []

-- byNode: the topics of each node that has any.
abbrev pub Table : Type 0
Table = Dict (List Str)

abbrev pub topics_of : Option (List Str) → List Str
topics_of none = []
topics_of (some topics) = topics

-- TopicsForNode.
unfoldable pub topics_for_node : Str → Table → List Str
unfolding lookup
topics_for_node node_id m = topics_of (lookup node_id m)

-- addLocalLocked, on the table.
unfoldable pub add_local : Str → Str → Table → Table
unfolding lookup insert str_eq
add_local topic node_id m = insert node_id (set_add topic (topics_of (lookup node_id m))) m

abbrev pub set_remove : Str → List Str → List Str
set_remove x = keep (λ y. not (str_eq y x))

abbrev pub store_rest : Str → List Str → Table → Table
store_rest node_id [] m = delete node_id m
store_rest node_id (t ∷ topics) m = insert node_id (t ∷ topics) m

abbrev pub remove_from : Str → Str → Option (List Str) → Table → Table
remove_from topic node_id none m = m
remove_from topic node_id (some topics) m = store_rest node_id (set_remove topic topics) m

-- removeLocalLocked, on the table.
unfoldable pub remove_local : Str → Str → Table → Table
unfolding lookup insert delete str_eq
remove_local topic node_id m = remove_from topic node_id (lookup node_id m) m

unfoldable pub remove_all : List Str → Str → Table → Table
unfolding remove_local
remove_all [] node_id m = m
remove_all (t ∷ topics) node_id m = remove_all topics node_id (remove_local t node_id m)

abbrev pub event_subscribe : Str
event_subscribe = codes "sub"

abbrev pub event_unsubscribe : Str
event_unsubscribe = codes "unsub"

abbrev pub event_unsubscribe_batch : Str
event_unsubscribe_batch = codes "unsub_batch"

abbrev pub event_purge_node : Str
event_purge_node = codes "purge"

-- routeEvent.
pub record RouteEvent : Type 0 where
  pub op : Str
  pub topic : Str
  pub topics : List Str
  pub node_id : Str

-- applyEvent: an unknown operation changes nothing.
unfoldable pub apply_event : RouteEvent → Table → Table
unfolding add_local remove_local remove_all topics_for_node str_eq
apply_event ev m =
    if str_eq ev.op event_subscribe
    then add_local ev.topic ev.node_id m
    else if str_eq ev.op event_unsubscribe
    then remove_local ev.topic ev.node_id m
    else if str_eq ev.op event_unsubscribe_batch
    then remove_all ev.topics ev.node_id m
    else if str_eq ev.op event_purge_node
    then remove_all (topics_for_node ev.node_id m) ev.node_id m
    else m

-- What a write leaves: the keys of the store, the event if one was published, and success.
pub record Written : Type 0 where
  pub keys : List Str
  pub event : Option RouteEvent
  pub ok : Bool

-- A write to the store and then to the channel; an error of the store ends it.
abbrev pub commit : Bool → Bool → List Str → List Str → RouteEvent → Written
commit store_ok publish_ok before after ev =
    if not store_ok
    then record { keys = before; event = none; ok = false }
    else record { keys = after; event = if publish_ok then some ev else none; ok = publish_ok }

abbrev pub delete_keys : List Str → List Str → List Str
delete_keys gone = keep (λ k. not (member k gone))

abbrev pub keys_for : List Str → Str → List Str
keys_for topics node_id = map (λ t. route_key t node_id) topics

module _ (store_ok publish_ok : Bool) (m : Table) (keys : List Str) where
  -- Subscribe.
  unfoldable pub subscribe : Str → Str → Written
  unfolding str_eq
  subscribe topic node_id =
      commit store_ok publish_ok keys (set_add (route_key topic node_id) keys)
        (record { op = event_subscribe; topic = topic; topics = []; node_id = node_id })

  -- Unsubscribe.
  unfoldable pub unsubscribe : Str → Str → Written
  unfolding str_eq
  unsubscribe topic node_id =
      commit store_ok publish_ok keys (delete_keys (route_key topic node_id ∷ []) keys)
        (record { op = event_unsubscribe; topic = topic; topics = []; node_id = node_id })

  abbrev pub remove_topics : Str → List Str → List Str → Str → Written
  unfolding str_eq
  remove_topics op topics sent node_id =
      if is_nil topics
      then record { keys = keys; event = none; ok = true }
      else commit store_ok publish_ok keys (delete_keys (keys_for topics node_id) keys)
          (record { op = op; topic = []; topics = sent; node_id = node_id })

  -- UnsubscribeBatch: no topics stand for all of the node's.
  unfoldable pub unsubscribe_batch : List Str → Str → Written
  unfolding remove_topics topics_for_node
  unsubscribe_batch topics node_id =
      let chosen = if is_nil topics then topics_for_node node_id m else topics in
      remove_topics event_unsubscribe_batch chosen chosen node_id

  -- PurgeNode.
  unfoldable pub purge_node : Str → Written
  unfolding remove_topics topics_for_node
  purge_node node_id = remove_topics event_purge_node (topics_for_node node_id m) [] node_id

abbrev add_parsed : Option (Str × Str) → Table → Table
unfolding add_local
add_parsed none m = m
add_parsed (some (topic, node_id)) m = add_local topic node_id m

-- The loop of reconcile over the scanned keys, from an empty table on.
unfoldable pub rebuild : List Str → Table → Table
unfolding parse_route_key add_parsed
rebuild [] m = m
rebuild (key ∷ keys) m = rebuild keys (add_parsed (parse_route_key key) m)
