-- ===== src/Acl/Evaluate.antt =====
-- internal/cluster/acl/evaluate.go: the decision and its precedence.
pub mod Outcome
pub mod Explain
pub mod Order
use keel_mqtt_gateway.Prelude.{
  ℕ, Bool, true, false, not, Option, none, some, List, [], ◌∷◌, Str, str_eq, ltb, if◌then◌else◌,
}
use keel_mqtt_gateway.Acl.Topic.{match_topic, specificity}
use keel_mqtt_gateway.Acl.Model.{
  Action, Effect, effect_allow, effect_deny, AclRule, allows_action, resolved_filter, Role,
}

pub record Decision : Type 0 where
  pub effect : Effect
  pub rule : Option AclRule

-- Allowed.
unfoldable pub is_allowed : Decision → Bool
unfolding str_eq
is_allowed d = str_eq d.effect effect_allow

-- The variables that the closure `consider` assigns, for one effect: the best rule and its score.
-- The score of no rule, -1, is `none`: every score exceeds it.
pub record Best : Type 0 where
  pub rule : Option AclRule
  pub score : Option ℕ

abbrev pub nothing_yet : Best
nothing_yet = record { rule = none; score = none }

abbrev pub exceeds : ℕ → Option ℕ → Bool
exceeds s none = true
exceeds s (some best) = ltb best s

-- The assignments of one case of the switch: keep the rule if its score is higher.
pub improve : AclRule → ℕ → Best → Best
improve r s b = if exceeds s b.score then record { rule = some r; score = some s } else b

pub record Found : Type 0 where
  pub deny : Best
  pub allow : Best

abbrev pub nothing_found : Found
nothing_found = record { deny = nothing_yet; allow = nothing_yet }

-- The request: who wants to do what to which topic.
pub record Request : Type 0 where
  pub client_id : Str
  pub username : Str
  pub topic : Str
  pub action : Action

-- The closure `consider`.
pub consider : Request → AclRule → Found → Found
unfolding improve str_eq
consider q r b =
    let s = specificity r.topic_filter in
    if not (allows_action r q.action)
    then b
    else if not (match_topic (resolved_filter r q.client_id q.username) q.topic)
    then b
    else if str_eq r.effect effect_deny
    then record b { deny = improve r s b.deny }
    else if str_eq r.effect effect_allow
    then record b { allow = improve r s b.allow }
    else b

pub consider_rules : Request → List AclRule → Found → Found
consider_rules q [] b = b
consider_rules q (r ∷ rs) b = consider_rules q rs (consider q r b)

pub consider_roles : Request → List Role → Found → Found
consider_roles q [] b = b
consider_roles q (role ∷ roles) b = consider_roles q roles (consider_rules q role.rules b)

-- The two tests that end Evaluate, on the rules found: a deny wins, then an allow, then the
-- fail-closed default.
pub conclude : Option AclRule → Option AclRule → Decision
conclude (some d) a = record { effect = effect_deny; rule = some d }
conclude none (some a) = record { effect = effect_allow; rule = some a }
conclude none none = record { effect = effect_deny; rule = none }

-- Evaluate.
unfoldable pub evaluate : Request → List Role → List AclRule → Decision
unfolding consider consider_rules consider_roles conclude match_topic specificity allows_action
    resolved_filter
evaluate q enabled_rulesets custom_rules =
    let best = consider_rules q custom_rules (consider_roles q enabled_rulesets nothing_found) in
    conclude best.deny.rule best.allow.rule
