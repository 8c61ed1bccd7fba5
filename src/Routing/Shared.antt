-- ===== src/Routing/Shared.antt =====
-- internal/cluster/routing/router.go: offlineShared and offlineSharedOwners, which follow the table
-- byNode: for each shared filter, the owners of its offline sessions and an index of them. The
-- index is a TopicsIndex of mochi-mqtt, an interface here.
pub mod Sets
pub mod Removes
pub mod Mirrors
pub mod Changes
pub mod Events
use keel_mqtt_gateway.Prelude.{
  ◌≡◌, Bool, true, false, not, ◌&&◌, ◌||◌, Option, none, some, List, [], ◌∷◌, Str, Dict, str_eq,
  lookup, insert, delete, is_nil, if◌then◌else◌,
}
use keel_mqtt_gateway.Acl.Topic.{shared_filter}
use keel_mqtt_gateway.Routing.Keys.{Base64, shared_owner_key, ownership_key_parts, parse_route_key}
use keel_mqtt_gateway.Routing.Table.{
  member, set_add, set_remove, Table, topics_for_node, add_local, remove_local, RouteEvent,
  event_subscribe, event_unsubscribe, event_unsubscribe_batch, event_purge_node,
}

-- mochimqtt.TopicsIndex: which subscribers it holds for which filters.
pub record TopicsIndex : Type 1 where
  pub I : Type 0
  pub new : I
  pub subscribe : Str → Str → I → I
  pub unsubscribe : Str → Str → I → I
  pub holds : Str → Str → I → Bool
  pub holds-new : (c f : Str) → holds c f new ≡ false
  pub holds-subscribe :
      (c' f' : Str) (i : I) (c f : Str)
      → holds c f (subscribe c' f' i) ≡ ((str_eq c' c && str_eq f' f) || holds c f i)
  pub holds-unsubscribe :
      (f' c' : Str) (i : I) (c f : Str)
      → holds c f (unsubscribe f' c' i) ≡ (not (str_eq c' c && str_eq f' f) && holds c f i)

-- A missing set reads as the empty one.
abbrev pub owners_of : Option (List Str) → List Str
owners_of none = []
owners_of (some owners) = owners

-- The filter under a shared one.
abbrev pub underlying_of : Option (Str × Str) → Option Str
underlying_of none = none
underlying_of (some (group, underlying)) = some underlying

module _ (index : TopicsIndex) where
  pub record SharedOwners : Type 0 where
    pub offline_shared : Dict index.I
    pub offline_shared_owners : Dict (List Str)

  abbrev pub index_of : Option index.I → index.I
  index_of none = index.new
  index_of (some idx) = idx

  -- From the look-up of the index on; the first argument says whether the owner is there already.
  abbrev pub put_owner : Bool → Str → Str → Str → index.I → List Str → SharedOwners → SharedOwners
  put_owner true filter underlying owner_key idx owners s = record {
    offline_shared = insert filter idx s.offline_shared;
    offline_shared_owners = insert filter owners s.offline_shared_owners;
  }
  put_owner false filter underlying owner_key idx owners s = record {
    offline_shared = insert filter (index.subscribe owner_key underlying idx) s.offline_shared;
    offline_shared_owners = insert filter (set_add owner_key owners) s.offline_shared_owners;
  }

  unfoldable pub add_owner : Str → Str → Str → SharedOwners → SharedOwners
  unfolding lookup insert str_eq
  add_owner filter underlying owner_key s =
      let owners = owners_of (lookup filter s.offline_shared_owners) in
      put_owner (member owner_key owners) filter underlying owner_key
        (index_of (lookup filter s.offline_shared)) owners s

  -- The owners without one: both maps drop a filter that has none left.
  abbrev pub store_owners : Str → index.I → Option (List Str) → SharedOwners → SharedOwners
  store_owners filter idx none s = record s { offline_shared = insert filter idx s.offline_shared }
  store_owners filter idx (some []) s = record {
    offline_shared = delete filter s.offline_shared;
    offline_shared_owners = delete filter s.offline_shared_owners;
  }
  store_owners filter idx (some (o ∷ owners)) s = record {
    offline_shared = insert filter idx s.offline_shared;
    offline_shared_owners = insert filter (o ∷ owners) s.offline_shared_owners;
  }

  abbrev pub without_owner : Str → Option (List Str) → Option (List Str)
  without_owner owner_key none = none
  without_owner owner_key (some owners) = some (set_remove owner_key owners)

  abbrev pub remove_from_index : Str → Str → Str → Option index.I → SharedOwners → SharedOwners
  remove_from_index filter underlying owner_key none s = s
  remove_from_index filter underlying owner_key (some idx) s =
      store_owners filter (index.unsubscribe underlying owner_key idx)
        (without_owner owner_key (lookup filter s.offline_shared_owners)) s

  unfoldable pub remove_owner : Str → Str → Str → SharedOwners → SharedOwners
  unfolding lookup insert delete str_eq
  remove_owner filter underlying owner_key s =
      remove_from_index filter underlying owner_key (lookup filter s.offline_shared) s

  abbrev pub if_underlying :
      (Str → Str → Str → SharedOwners → SharedOwners)
      → Str
      → Str
      → Option Str
      → SharedOwners
      → SharedOwners
  if_underlying change filter owner_key none s = s
  if_underlying change filter owner_key (some underlying) s = change filter underlying owner_key s

  -- A change for the owner that a topic names, where it is an ownership key of a shared filter.
  abbrev pub if_shared :
      (Str → Str → Str → SharedOwners → SharedOwners)
      → Str
      → Option (Str × Str)
      → SharedOwners
      → SharedOwners
  if_shared change node_id none s = s
  if_shared change node_id (some (client_id, filter)) s =
      if_underlying change filter (shared_owner_key node_id client_id)
        (underlying_of (shared_filter filter)) s

  -- reconcile, which subscribes whether or not the owner is there; a new index comes with a new set.
  abbrev pub scan_from : Str → Str → Str → Option index.I → SharedOwners → SharedOwners
  scan_from filter underlying owner_key none s =
      put_owner false filter underlying owner_key index.new [] s
  scan_from filter underlying owner_key (some idx) s =
      put_owner false filter underlying owner_key idx
        (owners_of (lookup filter s.offline_shared_owners)) s

  unfoldable pub scan_owner : Str → Str → Str → SharedOwners → SharedOwners
  unfolding lookup insert str_eq
  scan_owner filter underlying owner_key s =
      scan_from filter underlying owner_key (lookup filter s.offline_shared) s

  -- What the Router keeps beside the index of live routes.
  pub record Router : Type 0 where
    pub by_node : Table
    pub shared : SharedOwners

  abbrev pub no_routes : Router
  no_routes = record {
    by_node = [];
    shared = record { offline_shared = []; offline_shared_owners = [] };
  }

  module _ (base64 : Base64) where
    -- addLocalLocked, with addOfflineSharedOwnershipLocked.
    unfoldable pub add_local_locked : Str → Str → Router → Router
    unfolding add_local add_owner shared_filter ownership_key_parts
    add_local_locked topic node_id r = record {
      by_node = add_local topic node_id r.by_node;
      shared = if_shared add_owner node_id (ownership_key_parts base64 topic) r.shared;
    }

    -- removeLocalLocked, with removeOfflineSharedOwnershipLocked.
    unfoldable pub remove_local_locked : Str → Str → Router → Router
    unfolding remove_local remove_owner shared_filter ownership_key_parts
    remove_local_locked topic node_id r = record {
      by_node = remove_local topic node_id r.by_node;
      shared = if_shared remove_owner node_id (ownership_key_parts base64 topic) r.shared;
    }

    unfoldable pub remove_topics_locked : List Str → Str → Router → Router
    unfolding remove_local_locked
    remove_topics_locked [] node_id r = r
    remove_topics_locked (t ∷ topics) node_id r =
        remove_topics_locked topics node_id (remove_local_locked t node_id r)

    -- applyEvent on both.
    unfoldable pub apply_to_router : RouteEvent → Router → Router
    unfolding add_local_locked remove_topics_locked topics_for_node str_eq
    apply_to_router ev r =
        if str_eq ev.op event_subscribe
        then add_local_locked ev.topic ev.node_id r
        else if str_eq ev.op event_unsubscribe
        then remove_local_locked ev.topic ev.node_id r
        else if str_eq ev.op event_unsubscribe_batch
        then remove_topics_locked ev.topics ev.node_id r
        else if str_eq ev.op event_purge_node
        then remove_topics_locked (topics_for_node ev.node_id r.by_node) ev.node_id r
        else r

    abbrev pub scan_key : Option (Str × Str) → Router → Router
    scan_key none r = r
    scan_key (some (topic, node_id)) r = record {
      by_node = add_local topic node_id r.by_node;
      shared = if_shared scan_owner node_id (ownership_key_parts base64 topic) r.shared;
    }

    -- The loop of reconcile over the keys of the store.
    unfoldable pub rebuild_router : List Str → Router → Router
    unfolding parse_route_key
    rebuild_router [] r = r
    rebuild_router (key ∷ keys) r = rebuild_router keys (scan_key (parse_route_key key) r)
