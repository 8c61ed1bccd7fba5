-- ===== src/Broker/Topics/Checks.antt =====
-- hooks.go, OnACLCheck over what the cluster's state machine says.
use keel_mqtt_gateway.Prelude.{
  ◌≡◌, refl, Bool, false, not, ◌&&◌, ◌||◌, inl, inr, Option, none, some, List, ◌++◌, Str, Dict,
  lookup, any, has_some, if◌then◌else◌, Option-cases, arith,
}
use keel_mqtt_gateway.Acl.Model.{AclRule, action_publish, action_subscribe}
use keel_mqtt_gateway.Acl.Evaluate.{Request, Decision, is_allowed}
use keel_mqtt_gateway.Acl.Evaluate.Outcome.{
  forbids, permits, rules_of, evaluate_outcome, evaluate-decides,
}
use keel_mqtt_gateway.Raft.Fsm.{State}
use keel_mqtt_gateway.Raft.Reads.{enabled_roles, custom_rules, evaluate_acl}
use keel_mqtt_gateway.Broker.Device.{ClientState}
use keel_mqtt_gateway.Broker.Topics.{legacy_check, by_decision, check_client, on_acl_check}

-- The request that the check of a client makes.
abbrev pub asked : Str → ClientState → Str → Bool → Request
asked client_id state topic write = record {
  client_id = client_id;
  username = state.username;
  topic = topic;
  action = if write then action_publish else action_subscribe;
}

-- The rules that the state holds for a request.
abbrev pub rules_for : State → Request → List AclRule
rules_for s q =
    rules_of (enabled_roles s.enabled_rulesets)
    ++ custom_rules q.client_id q.username s.roles s.bindings

-- The check without the order of its tests: no rule that applies denies, and one of them, or the
-- legacy rules, allow.
abbrev pub checked : (Str → Bool) → State → Str → Option ClientState → Str → Bool → Bool
checked is_uuid s client_id none topic write = false
checked is_uuid s client_id (some state) topic write =
    let q = asked client_id state topic write in
    not (any (forbids q) (rules_for s q))
    && (any (permits q) (rules_for s q) || legacy_check is_uuid state topic write)

by_decision_lem :
    (is_uuid : Str → Bool) (d : Decision) (state : ClientState) (topic : Str)
    (write deny allow : Bool)
    → has_some d.rule ≡ (deny || allow)
    → is_allowed d ≡ (allow && not deny)
    → by_decision is_uuid d state topic write
      ≡ (not deny && (allow || legacy_check is_uuid state topic write))
unfolding by_decision
by_decision_lem is_uuid d state topic write deny allow h k = elim (Option-cases d.rule) [
  | inl e ↦ ground arith
  | inr (r, e) ↦ ground arith
]

check_client_lem :
    (is_uuid : Str → Bool) (s : State) (client_id : Str) (o : Option ClientState) (topic : Str)
    (write : Bool)
    → check_client is_uuid (some (evaluate_acl s)) client_id o topic write
      ≡ checked is_uuid s client_id o topic write
unfolding check_client evaluate_acl
check_client_lem is_uuid s client_id none topic write = refl
check_client_lem is_uuid s client_id (some state) topic write =
    let q = asked client_id state topic write in
    let standard = enabled_roles s.enabled_rulesets in
    let custom = custom_rules q.client_id q.username s.roles s.bindings in
    by_decision_lem is_uuid (evaluate_acl s q) state topic write _ _
      (evaluate-decides q standard custom) (evaluate_outcome q standard custom)

-- Over the cluster's state machine a check passes exactly when the client is tracked, no rule that
-- applies to its request denies, and one of them or else the legacy rules allow; the order of the
-- tests plays no part.
pub on_acl_check_lem :
    (is_uuid : Str → Bool) (s : State) (clients : Dict ClientState) (client_id topic : Str)
    (write : Bool)
    → on_acl_check is_uuid (some (evaluate_acl s)) clients client_id topic write
      ≡ checked is_uuid s client_id (lookup client_id clients) topic write
unfolding on_acl_check
on_acl_check_lem is_uuid s clients client_id topic write =
    check_client_lem is_uuid s client_id (lookup client_id clients) topic write
