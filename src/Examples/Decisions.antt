-- ===== src/Examples/Decisions.antt =====
-- A device, its rules and its requests.
use keel_mqtt_gateway.Prelude.{
  ◌≡◌, refl, ◌⊎◌, ◌↔◌, true, false, not, ◌&&◌, [], ◌∷◌, ◌++◌, codes, any,
}
use keel_mqtt_gateway.Acl.Topic.{match_topic}
use keel_mqtt_gateway.Acl.Topic.Levels.{IsBlocked, Matches, levels, match_topic_iff}
use keel_mqtt_gateway.Acl.Model.{AclRule, action_publish, effect_allow, effect_deny}
use keel_mqtt_gateway.Acl.Evaluate.{Request, evaluate, is_allowed}
use keel_mqtt_gateway.Acl.Evaluate.Outcome.{permits, forbids, rules_of, evaluate_outcome}
use keel_mqtt_gateway.Acl.Evaluate.Explain.{IsExplained, evaluate-IsExplained}
use keel_mqtt_gateway.Acl.Standard.{device_default}

abbrev all_telemetry : AclRule
all_telemetry = record {
  topic_filter = codes "telemetry/#";
  actions = action_publish ∷ [];
  effect = effect_allow;
}

abbrev no_secret : AclRule
no_secret = record {
  topic_filter = codes "telemetry/+/secret";
  actions = action_publish ∷ [];
  effect = effect_deny;
}

abbrev publish_secret : Request
publish_secret = record {
  client_id = codes "dev1";
  username = codes "u1";
  topic = codes "telemetry/dev1/secret";
  action = action_publish;
}

evaluate_denied :
    is_allowed (evaluate publish_secret (device_default ∷ []) (no_secret ∷ [])) ≡ false
unfolding evaluate is_allowed
evaluate_denied = refl

evaluate_permitted : is_allowed (evaluate publish_secret (device_default ∷ []) []) ≡ true
unfolding evaluate is_allowed
evaluate_permitted = refl

evaluate_outcome_example :
    is_allowed (evaluate publish_secret (device_default ∷ []) (no_secret ∷ all_telemetry ∷ [])) ≡ (
      any
        (permits publish_secret)
        (rules_of (device_default ∷ []) ++ no_secret ∷ all_telemetry ∷ [])
      && not (
          any
            (forbids publish_secret)
            (rules_of (device_default ∷ []) ++ no_secret ∷ all_telemetry ∷ [])))
evaluate_outcome_example =
    evaluate_outcome publish_secret (device_default ∷ []) (no_secret ∷ all_telemetry ∷ [])

evaluate-IsExplained_example :
    IsExplained publish_secret
      (rules_of (device_default ∷ []) ++ no_secret ∷ [])
      (evaluate publish_secret (device_default ∷ []) (no_secret ∷ []))
evaluate-IsExplained_example =
    evaluate-IsExplained publish_secret (device_default ∷ []) (no_secret ∷ [])

match_topic_iff_example : (match_topic (codes "+/dev1/#") (codes "$SYS/dev1/x") ≡ true) ↔ (
    (codes "+/dev1/#" ≡ codes "$SYS/dev1/x")
    ⊎ ((¬ IsBlocked (levels (codes "+/dev1/#")) (levels (codes "$SYS/dev1/x")))
        × Matches (levels (codes "+/dev1/#")) (levels (codes "$SYS/dev1/x"))))
match_topic_iff_example = match_topic_iff (codes "+/dev1/#") (codes "$SYS/dev1/x")
