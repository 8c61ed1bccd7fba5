-- ===== src/Examples/Owners.antt =====
-- The owners of a shared filter, with an index that is a function.
use keel_mqtt_gateway.Prelude.{
  refl, Bool, false, not, ◌&&◌, ◌||◌, some, List, [], ◌∷◌, Str, codes, str_eq, arith,
}
use keel_mqtt_gateway.Routing.Keys.{Base64, route_key, ownership_key, ownership_key_parts}
use keel_mqtt_gateway.Routing.Table.{RouteEvent, event_subscribe, event_purge_node}
use keel_mqtt_gateway.Routing.Shared.{TopicsIndex, no_routes, rebuild_router}
use keel_mqtt_gateway.Routing.Shared.Mirrors.{IsCanonical, ownership_key-IsCanonical}
use keel_mqtt_gateway.Routing.Shared.Changes.{IsMirror}
use keel_mqtt_gateway.Routing.Shared.Events.{route_key-IsSoundKey, follow_events, shared_owners_lem}

abbrev text_codec : Base64
text_codec = record { encode = λ s. s; decode = some; decode-encode = λ s. refl }

abbrev by_function : TopicsIndex
by_function = record {
  I = Str → Str → Bool;
  new = λ c f. false;
  subscribe = λ c' f' i c f. (str_eq c' c && str_eq f' f) || i c f;
  unsubscribe = λ f' c' i c f. not (str_eq c' c && str_eq f' f) && i c f;
  holds = λ c f i. i c f;
  holds-new = λ c f. refl;
  holds-subscribe = λ c' f' i c f. refl;
  holds-unsubscribe = λ f' c' i c f. refl;
}

abbrev node_1 : Str
node_1 = codes "n1"

abbrev group_filter : Str
group_filter = codes "$share/g/a"

abbrev member_key : Str → Str
member_key c = ownership_key text_codec c group_filter

-- A second client of the node, and then the end of the node.
abbrev owner_events : List RouteEvent
owner_events =
    record { op = event_subscribe; topic = member_key (codes "c2"); topics = []; node_id = node_1 }
    ∷ record { op = event_purge_node; topic = []; topics = []; node_id = node_1 }
    ∷ []

empty-IsCanonical : IsCanonical text_codec []
unfolding ownership_key_parts
empty-IsCanonical c f e = absurd (ground (arith, e))

shared_owners_lem_example : IsMirror by_function text_codec (
    follow_events by_function text_codec owner_events (
      rebuild_router by_function text_codec
        (route_key (member_key (codes "c1")) node_1 ∷ [])
        (no_routes by_function)))
shared_owners_lem_example =
    shared_owners_lem by_function text_codec (route_key (member_key (codes "c1")) node_1 ∷ [])
      owner_events
      (
        route_key-IsSoundKey by_function text_codec (member_key (codes "c1")) node_1 refl (
            ownership_key-IsCanonical text_codec (codes "c1") group_filter refl
              (λ e. ground arith)),
        tt,
      )
      (
        (
          refl,
          ownership_key-IsCanonical text_codec (codes "c2") group_filter refl (λ e. ground arith),
          tt,
        ),
        ((refl, empty-IsCanonical, tt), tt),
      )
