-- ===== src/Routing/Reassert.antt =====
-- internal/cluster/routing/reconciler.go: the filters of the clients that the server holds, those
-- with a session and no connection among them, are subscribed again where the table does not have
-- them, over Subscribe of router.go. Which writes the store and the channel take is a function of
-- the filter; the events come in later.
pub mod Restored
use keel_mqtt_gateway.Prelude.{Bool, not, List, [], ◌∷◌, Str, str_eq, keep}
use keel_mqtt_gateway.Routing.Table.{
  member, set_add, Table, topics_for_node, RouteEvent, Written, subscribe,
}

abbrev pub add_filters : List Str → List Str → List Str
add_filters [] seen = seen
add_filters (filter ∷ filters) seen = add_filters filters (set_add filter seen)

abbrev pub seen_filters : List (List Str) → List Str → List Str
seen_filters [] seen = seen
seen_filters (filters ∷ clients) seen = seen_filters clients (add_filters filters seen)

-- LocalSubscriptions, of the filters of each client that Clients.GetAll answers.
unfoldable pub local_subscriptions : List (List Str) → List Str
unfolding str_eq
local_subscriptions clients = seen_filters clients []

unfoldable pub missing_from : List Str → List Str → List Str
unfolding str_eq
missing_from known = keep (λ t. not (member t known))

module _ (store_ok publish_ok : Str → Bool) (m : Table) (node_id : Str) where
  -- The loop over the missing filters: an error of one keeps no other from being written.
  unfoldable pub reassert : List Str → List Str → List Str
  unfolding subscribe
  reassert [] keys = keys
  reassert (t ∷ missing) keys =
      reassert missing (subscribe (store_ok t) (publish_ok t) m keys t node_id).keys

  -- reconcileOnce, with the keys of the store that it leaves.
  unfoldable pub reassert_once : List (List Str) → List Str → List Str
  unfolding local_subscriptions missing_from reassert topics_for_node
  reassert_once clients keys =
      reassert (missing_from (topics_for_node node_id m) (local_subscriptions clients)) keys
