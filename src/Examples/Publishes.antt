-- ===== src/Examples/Publishes.antt =====
-- A publish with two live nodes and one offline owner, a shared group, and two keys of a limiter.
use mathlib.Core.List.Perm
use keel_mqtt_gateway.Prelude.{
  ℕ, ◌-◌, ◌≡◌, refl, Bool, true, false, none, some, [], ◌∷◌, ◌++◌, List, Str, codes, str_eq, leb,
  if◌then◌else◌,
}
use keel_mqtt_gateway.Routing.Offline.{choose_owner}
use keel_mqtt_gateway.Routing.Offline.Selection.{choose_owner-Perm}
use keel_mqtt_gateway.Broker.Device.{DeviceInfo}
use keel_mqtt_gateway.Broker.Publish.{
  Plan, Packet, passes, on_publish, shared_filters_for_node, Subscribers,
}
use keel_mqtt_gateway.Broker.Publish.Targets.{forwards_to, is_target, on_publish-forwards}
use keel_mqtt_gateway.Broker.Limits.Independence.{Event, asked, swept, answers}

abbrev n1 : Str
n1 = codes "n1"

abbrev n2 : Str
n2 = codes "n2"

abbrev group : Str
group = codes "$share/g/a"

-- The owner keys of the group: c2 at n2 and c1 at n1, which is the lower.
abbrev owner_keys : List Str
owner_keys = (n2 ++ 0 ∷ codes "c2") ∷ (n1 ++ 0 ∷ codes "c1") ∷ []

abbrev owner_keys_back : List Str
owner_keys_back = (n1 ++ 0 ∷ codes "c1") ∷ (n2 ++ 0 ∷ codes "c2") ∷ []

lowest : choose_owner owner_keys none ≡ some (record { node_id = n1; client_id = codes "c1" })
unfolding choose_owner
lowest = refl

choose_owner-Perm_example : choose_owner owner_keys none ≡ choose_owner owner_keys_back none
choose_owner-Perm_example =
    choose_owner-Perm owner_keys owner_keys_back
      (Perm.swap (codes "n1" ++ 0 ∷ codes "c1") (codes "n2" ++ 0 ∷ codes "c2") [])

abbrev device : DeviceInfo
device = record {
  id = codes "d1";
  tenant_id = codes "t1";
  tenant_slug = codes "acme";
  identity = [];
}

abbrev plan : Plan
plan = record {
  live = n1 ∷ n2 ∷ [];
  shared_nodes = some ((group, n2) ∷ []);
  offline = codes "n3" ∷ n2 ∷ [];
}

abbrev packet : Packet
packet = record { protocol_version = 5; qos = 1 }

on_publish-forwards_example :
    let o = on_publish true true n1 plan (codes "0") true true false (some device) packet in
    (o.1 ≡ passes (shared_filters_for_node plan.shared_nodes n1))
    × (forwards_to n2 o.0
        ≡ (if is_target n1 plan n2 then shared_filters_for_node plan.shared_nodes n2 ∷ [] else []))
unfolding str_eq
on_publish-forwards_example =
    on_publish-forwards n1 plan (codes "0") true true false device packet n2 (refl, (refl, tt)) refl

abbrev everyone : Str → Bool
everyone c = true

abbrev members : Subscribers
members = record { subscriptions = []; shared = (group, codes "c1" ∷ []) ∷ [] }

-- A bucket that counts down from two.
abbrev countdown : ℕ → ℕ → Bool × ℕ
countdown now n = (leb 1 n, n - 1)

abbrev calls : List Event
calls = asked 1 n1 ∷ asked 1 n2 ∷ asked 2 n1 ∷ swept 3 ∷ asked 4 n2 ∷ asked 5 n1 ∷ []

third_refused : answers ℕ 2 countdown 10 n1 calls [] ≡ true ∷ true ∷ false ∷ []
unfolding answers
third_refused = refl
