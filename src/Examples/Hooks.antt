-- ===== src/Examples/Hooks.antt =====
-- A device of tenant "t1", what it may publish, and the filters of two clients.
use keel_mqtt_gateway.Prelude.{
  ◌≡◌, refl, inl, ◌↔◌, Bool, true, false, some, [], ◌∷◌, ◌++◌, List, Str, Dict, codes, str_eq,
  lookup, if◌then◌else◌,
}
use keel_mqtt_gateway.Acl.Topic.{slash}
use keel_mqtt_gateway.Raft.Fsm.{new_state}
use keel_mqtt_gateway.Raft.Reads.{evaluate_acl}
use keel_mqtt_gateway.Routing.Table.Members.{has}
use keel_mqtt_gateway.Broker.Device.{DeviceInfo, ClientState}
use keel_mqtt_gateway.Broker.Topics.{
  telemetry_slash, is_allowed_direct, is_allowed_publish, on_acl_check,
}
use keel_mqtt_gateway.Broker.Topics.Publishes.{Delegates, is_allowed_publish_iff}
use keel_mqtt_gateway.Broker.Topics.Tenants.{own_device, tenant_topic}
use keel_mqtt_gateway.Broker.Topics.Checks.{checked, on_acl_check_lem}
use keel_mqtt_gateway.Broker.Filters.{Routes}
use keel_mqtt_gateway.Broker.Filters.History.{
  Event, subscribed, gone, run, uses, empty_routes, run-has,
}

abbrev device : DeviceInfo
device = record {
  id = codes "d1";
  tenant_id = codes "t1";
  tenant_slug = codes "acme";
  identity = [];
}

-- Here the names of sub-devices are "u1" and "u2".
abbrev is_sub : Str → Bool
is_sub s = str_eq s (codes "u1")

abbrev delegated : Str
delegated = codes "via/u1/via/u1/event/x"

delegated_allowed : is_allowed_publish is_sub delegated device ≡ true
unfolding is_allowed_publish
delegated_allowed = refl

is_allowed_publish_iff_example :
    (is_allowed_publish is_sub delegated device ≡ true)
    ↔ ((t : Str) × Delegates is_sub delegated t × (is_allowed_direct t device ≡ true))
is_allowed_publish_iff_example = is_allowed_publish_iff is_sub device delegated

tenant_topic_example :
    is_allowed_publish is_sub (telemetry_slash ++ codes "t2" ++ slash ∷ codes "d9") device
    ≡ (if str_eq (codes "t2") (codes "t1") then own_device device (codes "d9") else true)
tenant_topic_example =
    tenant_topic device (codes "t2") (codes "d9") is_sub telemetry_slash (inl refl) refl refl

abbrev connected : Dict ClientState
connected =
    (
      codes "c",
      record {
        info = device;
        method = codes "password";
        username = codes "u";
        client = 0;
        generation = 1;
      },
    )
    ∷ []

on_acl_check_lem_example :
    on_acl_check is_sub (some (evaluate_acl new_state)) connected (codes "c") (codes "t/x") true
    ≡ checked is_sub new_state (codes "c") (lookup (codes "c") connected) (codes "t/x") true
on_acl_check_lem_example =
    on_acl_check_lem is_sub new_state connected (codes "c") (codes "t/x") true

abbrev n1 : Str
n1 = codes "n1"

abbrev f : Str
f = codes "f/#"

-- Two clients share a filter and one of them goes.
abbrev history : List Event
history =
    subscribed (codes "a") (f ∷ codes "g" ∷ [])
    ∷ subscribed (codes "b") (f ∷ [])
    ∷ gone (codes "a") (f ∷ codes "g" ∷ [])
    ∷ []

run-has_example :
    (has f n1 (run n1 history empty_routes).table ≡ true)
    ↔ ((c : Str) × (uses c f history false ≡ true))
run-has_example = run-has n1 f history

abbrev used_by_a : Routes
used_by_a = record { refs = (f, codes "a" ∷ []) ∷ []; table = (n1, f ∷ []) ∷ [] }
