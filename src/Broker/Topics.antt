-- ===== src/Broker/Topics.antt =====
-- internal/broker/hooks.go: the check of a client's access to a topic, with the legacy rules that
-- decide where no rule of the cluster does. Whether a text is a UUID, which uuid.Parse tells, is a
-- parameter; so is the answer of the registry.
pub mod Checks
pub mod Publishes
pub mod Tenants
use keel_mqtt_gateway.Prelude.{
  ℕ, zero, suc, ◌+◌, Bool, true, false, not, ◌&&◌, ◌||◌, Option, none, some, List, [], ◌∷◌, ◌++◌,
  Str, Dict, codes, str_eq, has_prefix, lookup, any, length, take, leb, ltb, ◌==◌, if◌then◌else◌,
}
use keel_mqtt_gateway.Acl.Topic.{slash, shared_filter}
use keel_mqtt_gateway.Acl.Model.{Action, action_publish, action_subscribe}
use keel_mqtt_gateway.Acl.Evaluate.{Request, Decision, is_allowed}
use keel_mqtt_gateway.Routing.Keys.{cut_first, drop}
use keel_mqtt_gateway.Broker.Device.{DeviceInfo, ClientState, auth_method_test_consumer}

-- Does the text go on after a first part with a slash?
--   len(rest) >= len(part)+1 && rest[:len(part)] == part && rest[len(part)] == '/'
abbrev at_slash : Str → Bool
at_slash [] = false
at_slash (c ∷ s) = c == slash

unfoldable pub goes_on : Str → Str → Bool
unfolding str_eq
goes_on part rest =
    leb (length part + 1) (length rest)
    && (str_eq (take (length part) rest) part && at_slash (drop (length part) rest))

-- isHonoTopicShape.
unfoldable pub is_hono_topic_shape : Str → Str → DeviceInfo → Bool
unfolding goes_on
is_hono_topic_shape topic prefix info = goes_on info.tenant_id (drop (length prefix) topic)

-- isHonoTopicOwned.
unfoldable pub is_hono_topic_owned : Str → Str → DeviceInfo → Bool
unfolding goes_on str_eq
is_hono_topic_owned topic prefix info =
    let rest = drop (length prefix) topic in
    let td = info.tenant_id ++ slash ∷ info.id in str_eq rest td || goes_on td rest

abbrev pub fixed_topics : List Str
fixed_topics =
    codes "telemetry"
    ∷ codes "t"
    ∷ codes "event"
    ∷ codes "e"
    ∷ codes "status/heartbeat"
    ∷ codes "status/ota"
    ∷ codes "status/ca"
    ∷ []

abbrev pub telemetry_slash : Str
telemetry_slash = codes "telemetry/"

abbrev pub event_slash : Str
event_slash = codes "event/"

-- len(topic) > len(prefix) && topic[:len(prefix)] == prefix
abbrev pub is_under : Str → Str → Bool
unfolding has_prefix
is_under prefix topic = ltb (length prefix) (length topic) && has_prefix topic prefix

abbrev hono_allowed : Str → Str → DeviceInfo → Bool
unfolding is_hono_topic_owned is_hono_topic_shape
hono_allowed topic prefix info =
    is_hono_topic_owned topic prefix info || not (is_hono_topic_shape topic prefix info)

-- The switch of isAllowedPublish.
unfoldable pub is_allowed_direct : Str → DeviceInfo → Bool
unfolding hono_allowed str_eq has_prefix
is_allowed_direct topic info =
    if any (λ t. str_eq topic t) fixed_topics
    then true
    else if is_under (codes "t/") topic || is_under (codes "e/") topic
    then true
    else if is_under telemetry_slash topic
    then hono_allowed topic telemetry_slash info
    else if is_under event_slash topic
    then hono_allowed topic event_slash info
    else false

abbrev pub via_slash : Str
via_slash = codes "via/"

-- The sub-device and the inner topic of "via/<sub-device>/<inner topic>", where the first slash of
-- the rest is not its first byte.
--   slashIdx > 0
abbrev named_sub : Option (Str × Str) → Option (Str × Str)
named_sub none = none
named_sub (some ([], inner)) = none
named_sub (some (c ∷ sub_id, inner)) = some (c ∷ sub_id, inner)

unfoldable pub via_parts : Str → Option (Str × Str)
unfolding cut_first
via_parts topic = named_sub (cut_first slash (drop (length via_slash) topic))

module _ (is_uuid : Str → Bool) where
  -- isAllowedPublish, on fuel: each delegation takes more than one byte from the topic.
  unfoldable pub allowed_publish_within : ℕ → Str → DeviceInfo → Bool
  unfolding is_allowed_direct via_parts has_prefix
  allowed_publish_within zero topic info = false
  allowed_publish_within (suc fuel) topic info = elim (has_prefix topic via_slash) [
    | false ↦ is_allowed_direct topic info
    | true ↦ elim (via_parts topic) [
      | none ↦ false
      | some (sub_id, inner) ↦ elim (is_uuid sub_id) [
        | true ↦ allowed_publish_within fuel inner info
        | false ↦ false
      ]
    ]
  ]

  unfoldable pub is_allowed_publish : Str → DeviceInfo → Bool
  unfolding allowed_publish_within
  is_allowed_publish topic info = allowed_publish_within (length topic) topic info

-- isAllowedConsumerSubscribe, below the prefix of a shared subscription.
unfoldable pub consumer_topic : Str → Str
unfolding shared_filter
consumer_topic topic = elim (shared_filter topic) [
  | none ↦ topic
  | some (group, underlying) ↦ underlying
]

-- isAllowedConsumerSubscribe.
unfoldable pub is_allowed_consumer_subscribe : Str → Bool
unfolding consumer_topic str_eq has_prefix
is_allowed_consumer_subscribe topic =
    let t = consumer_topic topic in
    if str_eq t (codes "telemetry/#") || str_eq t (codes "telemetry")
    then true
    else has_prefix t telemetry_slash && not (any (λ c. c == b'+' || c == b'#') t)

abbrev pub command_slash : Str
command_slash = codes "command/"

-- The filters of a device's own commands.
unfoldable pub is_own_command : Str → DeviceInfo → Bool
unfolding str_eq
is_own_command topic info =
    str_eq topic (command_slash ++ info.id)
    || (str_eq topic (command_slash ++ info.id ++ codes "/#")
        || str_eq topic
            (command_slash ++ info.tenant_id ++ codes "//" ++ info.id ++ codes "/req/#"))

module _ (is_uuid : Str → Bool) where
  -- What OnACLCheck does where no rule of the cluster decides.
  unfoldable pub legacy_check : ClientState → Str → Bool → Bool
  unfolding str_eq is_allowed_consumer_subscribe is_allowed_publish is_own_command
  legacy_check state topic write =
      if str_eq state.method auth_method_test_consumer
      then not write && is_allowed_consumer_subscribe topic
      else if write
      then is_allowed_publish is_uuid topic state.info
      else is_own_command topic state.info

  -- OnACLCheck, once a decision is there: one that names a rule is authoritative.
  unfoldable pub by_decision : Decision → ClientState → Str → Bool → Bool
  unfolding legacy_check
  by_decision decision state topic write = elim decision.rule [
    | none ↦ legacy_check state topic write
    | some rule ↦ is_allowed decision
  ]

  -- OnACLCheck, for the entry of the client; without a cluster there is no registry.
  unfoldable pub check_client :
      Option (Request → Decision) → Str → Option ClientState → Str → Bool → Bool
  unfolding legacy_check by_decision
  check_client registry client_id none topic write = false
  check_client none client_id (some state) topic write = legacy_check state topic write
  check_client (some evaluate) client_id (some state) topic write =
      by_decision
        (evaluate (record {
          client_id = client_id;
          username = state.username;
          topic = topic;
          action = if write then action_publish else action_subscribe;
        }))
        state topic write

  -- OnACLCheck.
  unfoldable pub on_acl_check :
      Option (Request → Decision) → Dict ClientState → Str → Str → Bool → Bool
  unfolding check_client lookup
  on_acl_check registry clients client_id topic write =
      check_client registry client_id (lookup client_id clients) topic write
