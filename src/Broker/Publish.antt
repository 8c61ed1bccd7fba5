-- ===== src/Broker/Publish.antt =====
-- internal/broker/hooks.go: what a publish does: the limit, the nodes that it is forwarded to, the
-- output connectors, and the local subscribers that remain. The answers of the routing table, the
-- rate limiter and the quota are inputs; that a forward fails changes nothing here.
pub mod Targets
pub mod Groups
use keel_mqtt_gateway.Prelude.{
  ℕ, Bool, true, false, not, ◌&&◌, ◌||◌, Option, none, some, List, [], ◌∷◌, ◌++◌, Str, Dict, str_eq,
  keep, is_nil, has_some, ltb, ◌==◌, if◌then◌else◌,
}
use keel_mqtt_gateway.Routing.Table.{member, set_add}
use keel_mqtt_gateway.Broker.Device.{DeviceInfo}

abbrev pub add_nodes : List Str → List Str → List Str
unfolding str_eq
add_nodes [] out = out
add_nodes (n ∷ nodes) out = add_nodes nodes (set_add n out)

-- The nodes of fanOutPlan: without offline owners the live nodes as they are.
unfoldable pub fan_out_plan : List Str → List Str → List Str
unfolding add_nodes
fan_out_plan live offline = if is_nil offline then live else add_nodes offline (add_nodes live [])

abbrev pub filters_at : Str → Dict Str → List Str
unfolding str_eq
filters_at node_id [] = []
filters_at node_id ((filter, target) ∷ selected) =
    let rest = filters_at node_id selected in if str_eq target node_id then filter ∷ rest else rest

-- sharedFiltersForNode: `none` is a plan without shared nodes.
unfoldable pub shared_filters_for_node : Option (Dict Str) → Str → Option (List Str)
unfolding filters_at
shared_filters_for_node none node_id = none
shared_filters_for_node (some selected) node_id = some (filters_at node_id selected)

-- What a publish asks of the other parts.
pub data PublishCall : Type 0 where
  delivers_offline : PublishCall
  forwards : Str → Option (List Str) → PublishCall
  outputs : PublishCall
  updates_last_seen : Str → PublishCall

-- forwardClusterTargets.
unfoldable pub forward_cluster_targets : Str → List Str → Option (Dict Str) → List PublishCall
unfolding shared_filters_for_node str_eq
forward_cluster_targets self [] shared_nodes = []
forward_cluster_targets self (node_id ∷ nodes) shared_nodes =
    let rest = forward_cluster_targets self nodes shared_nodes in
    if str_eq node_id self
    then rest
    else forwards node_id (shared_filters_for_node shared_nodes node_id) ∷ rest

-- What the routing table says of the topic: the live nodes with the choice for each shared filter,
-- and the nodes with offline sessions.
pub record Plan : Type 0 where
  pub live : List Str
  pub shared_nodes : Option (Dict Str)
  pub offline : List Str

-- The answer to a publish: it goes on, with the shared filters for local subscribers; or it is
-- refused with an acknowledgement of the reason; or it is dropped.
pub data Answer : Type 0 where
  passes : Option (List Str) → Answer
  quota_exceeded : Answer
  rejected : Answer

-- Protocol version and quality of service of the packet.
pub record Packet : Type 0 where
  pub protocol_version : ℕ
  pub qos : ℕ

-- What OnPublish does after the forwards.
abbrev pub afterwards : Bool → Str → List PublishCall
afterwards to_outputs device_id =
    (if to_outputs then outputs ∷ [] else []) ++ updates_last_seen device_id ∷ []

module _ (has_registry has_forwarder : Bool) (self : Str) (plan : Plan) where
  -- forwardToClusterSubscribers: its calls, and the shared filters that are left to this node.
  unfoldable pub forward_to_cluster_subscribers : List PublishCall × Option (List Str)
  unfolding fan_out_plan shared_filters_for_node forward_cluster_targets
  forward_to_cluster_subscribers =
      let nodes = fan_out_plan plan.live plan.offline in
      let local_shared = shared_filters_for_node plan.shared_nodes self in
      if not has_registry
      then ([], none)
      else if not has_forwarder || is_nil nodes
      then (delivers_offline ∷ [], local_shared)
      else (delivers_offline ∷ forward_cluster_targets self nodes plan.shared_nodes, local_shared)

  -- OnPublish. Whether the limiter allows it is asked for a tenant only; the zero UUID has no limit.
  unfoldable pub on_publish :
      Str → Bool → Bool → Bool → Option DeviceInfo → Packet → List PublishCall × Answer
  unfolding forward_to_cluster_subscribers str_eq
  on_publish zero_uuid allows has_outputs within_volume none pk = ([], passes none)
  on_publish zero_uuid allows has_outputs within_volume (some info) pk =
      let (calls, shared) = forward_to_cluster_subscribers in
      if not (str_eq info.tenant_id zero_uuid) && not allows
      then ([], if pk.protocol_version == 5 && ltb 0 pk.qos then quota_exceeded else rejected)
      else (calls ++ afterwards (has_outputs && within_volume) info.id, passes shared)

-- Subscribers of mochi-mqtt: the clients of ordinary subscriptions, and those of each shared filter.
pub record Subscribers : Type 0 where
  pub subscriptions : List Str
  pub shared : Dict (List Str)

module _ (connected : Str → Bool) where
  abbrev pub is_chosen : Option (List Str) → Str → Bool
  unfolding str_eq
  is_chosen none filter = true
  is_chosen (some allowed) filter = member filter allowed

  abbrev pub with_members : Str → List Str → Dict (List Str) → Dict (List Str)
  with_members filter [] rest = rest
  with_members filter (c ∷ members) rest = (filter, c ∷ members) ∷ rest

  -- The loop over the shared filters.
  unfoldable pub keep_shared : Option (List Str) → Dict (List Str) → Dict (List Str)
  unfolding is_chosen
  keep_shared shared_filters [] = []
  keep_shared shared_filters ((filter, members) ∷ shared) =
      let rest = keep_shared shared_filters shared in
      if not (is_chosen shared_filters filter)
      then rest
      else with_members filter (keep connected members) rest

  -- OnSelectSubscribers.
  unfoldable pub on_select_subscribers : Bool → Bool → Option (List Str) → Subscribers → Subscribers
  unfolding keep_shared
  on_select_subscribers has_registry has_store shared_filters subs =
      if not has_registry then subs else record {
        subscriptions = if has_store then keep connected subs.subscriptions else subs.subscriptions;
        shared = keep_shared shared_filters subs.shared;
      }
