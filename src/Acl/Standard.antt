-- ===== src/Acl/Standard.antt =====
-- internal/cluster/acl/standard.go: the rule bundles that the binary ships.
pub mod Wildcards
use keel_mqtt_gateway.Prelude.{[], ◌∷◌, Str, codes, Dict}
use keel_mqtt_gateway.Acl.Model.{
  Action, action_publish, action_subscribe, effect_allow, AclRule, Role,
}

abbrev grant : Str → Action → AclRule
grant filter action = record { topic_filter = filter; actions = action ∷ []; effect = effect_allow }

abbrev pub device_default : Role
device_default = record {
  name = codes "keel-device-default";
  rules =
      grant (codes "telemetry/%c/#") action_publish
      ∷ grant (codes "event/%c/#") action_publish
      ∷ grant (codes "t") action_publish
      ∷ grant (codes "t/#") action_publish
      ∷ grant (codes "e") action_publish
      ∷ grant (codes "e/#") action_publish
      ∷ grant (codes "telemetry") action_publish
      ∷ grant (codes "event") action_publish
      ∷ grant (codes "status/heartbeat") action_publish
      ∷ grant (codes "status/ota") action_publish
      ∷ grant (codes "status/ca") action_publish
      ∷ grant (codes "cmd/%c") action_subscribe
      ∷ grant (codes "command/%c") action_subscribe
      ∷ grant (codes "command/%c/#") action_subscribe
      ∷ [];
}

-- StandardRulesets.
abbrev pub standard_rulesets : Dict Role
standard_rulesets = (codes "keel-device-default", device_default) ∷ []
