-- ===== src/Routing/Offline.antt =====
-- internal/cluster/routing/router.go: the nodes and clients of offline sessions that a publish is
-- for. What the topic index of mochi-mqtt answers is an input: the owner keys whose filter matches
-- the topic, for each shared filter, and the shared filters that have a live member.
pub mod Selection
use keel_mqtt_gateway.Prelude.{
  ℕ, ◌+◌, Bool, true, false, not, ◌&&◌, ◌||◌, Option, none, some, List, [], ◌∷◌, ◌++◌, Str, Dict,
  str_eq, str_lt, lookup, is_nil, length, if◌then◌else◌,
}
use keel_mqtt_gateway.Acl.Topic.{shared_filter, match_topic}
use keel_mqtt_gateway.Routing.Keys.{drop, shared_owner_node, Base64, ownership_key_parts}
use keel_mqtt_gateway.Routing.Table.{member, set_add, Table, topics_of, topics_for_node}

-- offlineSharedSelection.
pub record OfflineSharedSelection : Type 0 where
  pub node_id : Str
  pub client_id : Str

-- nodeID < choice.nodeID || (nodeID == choice.nodeID && clientID < choice.clientID)
abbrev pub is_below : OfflineSharedSelection → OfflineSharedSelection → Bool
unfolding str_lt str_eq
is_below s c =
    str_lt s.node_id c.node_id || (str_eq s.node_id c.node_id && str_lt s.client_id c.client_id)

-- A choice without a node is none yet.
abbrev pub is_better : OfflineSharedSelection → Option OfflineSharedSelection → Bool
unfolding is_below
is_better s none = true
is_better s (some c) = is_below s c

abbrev pub selection_of : Str → Option Str → Option OfflineSharedSelection
selection_of owner_key none = none
selection_of owner_key (some node_id) =
    some (record { node_id = node_id; client_id = drop (length node_id + 1) owner_key })

-- The node and the client of an owner key; a key without a node is passed over.
unfoldable pub owner_of : Str → Option OfflineSharedSelection
unfolding shared_owner_node
owner_of owner_key = selection_of owner_key (shared_owner_node owner_key)

abbrev pub choose :
    Option OfflineSharedSelection → Option OfflineSharedSelection → Option OfflineSharedSelection
unfolding is_better
choose none choice = choice
choose (some s) choice = if is_better s choice then some s else choice

-- The inner loop of offlineSharedSelectionsLocked.
unfoldable pub choose_owner :
    List Str → Option OfflineSharedSelection → Option OfflineSharedSelection
unfolding choose owner_of
choose_owner [] choice = choice
choose_owner (owner_key ∷ matched) choice =
    choose_owner matched (choose (owner_of owner_key) choice)

abbrev pub with_choice :
    Str → Option OfflineSharedSelection → Dict OfflineSharedSelection → Dict OfflineSharedSelection
with_choice filter none selected = selected
with_choice filter (some choice) selected = (filter, choice) ∷ selected

module _ (live_shared : List Str) (matched : Str → List Str) where
  -- offlineSharedSelectionsLocked, over the shared filters that have offline owners.
  unfoldable pub offline_shared_selections : List Str → Dict OfflineSharedSelection
  unfolding choose_owner str_eq
  offline_shared_selections [] = []
  offline_shared_selections (filter ∷ filters) =
      let rest = offline_shared_selections filters in
      if member filter live_shared
      then rest
      else with_choice filter (choose_owner (matched filter) none) rest

-- The shared part of OfflineNodesFor, after the nodes of ordinary offline routes.
unfoldable pub offline_nodes_for : List Str → Dict OfflineSharedSelection → List Str
unfolding str_eq
offline_nodes_for nodes [] = nodes
offline_nodes_for nodes ((filter, selected) ∷ selections) =
    offline_nodes_for (set_add selected.node_id nodes) selections

-- OfflineSharedClientsFor.
unfoldable pub offline_shared_clients_for : Str → Dict OfflineSharedSelection → Dict Str
unfolding str_eq
offline_shared_clients_for node_id [] = []
offline_shared_clients_for node_id ((filter, selected) ∷ selections) =
    let rest = offline_shared_clients_for node_id selections in
    if str_eq selected.node_id node_id then (filter, selected.client_id) ∷ rest else rest

abbrev pub has_shape : Option (Str × Str) → Bool
has_shape none = false
has_shape (some parts) = true

module _ (base64 : Base64) where
  unfoldable pub add_candidate : Str → Option (Str × Str) → List Str → List Str
  unfolding shared_filter match_topic str_eq
  add_candidate topic none clients = clients
  add_candidate topic (some (client_id, filter)) clients =
      if has_shape (shared_filter filter)
      then clients
      else if match_topic filter topic
      then set_add client_id clients
      else clients

  -- The loop of OfflineDeliveryCandidates over the node's keys.
  unfoldable pub ordinary_candidates : Str → List Str → List Str → List Str
  unfolding add_candidate ownership_key_parts
  ordinary_candidates topic [] clients = clients
  ordinary_candidates topic (key ∷ keys) clients =
      ordinary_candidates topic keys (add_candidate topic (ownership_key_parts base64 key) clients)

  unfoldable pub add_all : Dict Str → List Str → List Str
  unfolding str_eq
  add_all [] clients = clients
  add_all ((filter, client_id) ∷ selected) clients = add_all selected (set_add client_id clients)

  -- OfflineDeliveryCandidates: the clients, and the choice for each shared filter.
  unfoldable pub offline_delivery_candidates :
      Table → Str → Str → Dict OfflineSharedSelection → List Str × Dict Str
  unfolding ordinary_candidates offline_shared_clients_for topics_for_node add_all
  offline_delivery_candidates m topic node_id selections =
      let selected = offline_shared_clients_for node_id selections in
      let clients = ordinary_candidates topic (topics_for_node node_id m) [] in
      (add_all selected clients, selected)

  abbrev add_owned : Option (Str × Str) → List Str → List Str
  unfolding str_eq
  add_owned none out = out
  add_owned (some (client_id, filter)) out = set_add client_id out

  owned : List Str → List Str → List Str
  unfolding add_owned ownership_key_parts
  owned [] out = out
  owned (key ∷ keys) out = owned keys (add_owned (ownership_key_parts base64 key) out)

  -- OwnedClientIDs.
  unfoldable pub owned_client_ids : Table → Str → List Str
  unfolding owned topics_for_node
  owned_client_ids m node_id = owned (topics_for_node node_id m) []
