-- ===== src/Acl/Model.antt =====
-- internal/cluster/acl/model.go: actions, effects, rules, roles and bindings. Action and Effect are
-- strings in the source, and a rule that comes from JSON may hold any text there.
use keel_mqtt_gateway.Prelude.{Bool, List, Str, codes, str_eq, any, replace_pair}

abbrev pub Action : Type 0
Action = Str

abbrev pub action_publish : Action
action_publish = codes "publish"

abbrev pub action_subscribe : Action
action_subscribe = codes "subscribe"

abbrev pub Effect : Type 0
Effect = Str

abbrev pub effect_allow : Effect
effect_allow = codes "allow"

abbrev pub effect_deny : Effect
effect_deny = codes "deny"

pub record AclRule : Type 0 where
  pub topic_filter : Str
  pub actions : List Str
  pub effect : Effect

-- allowsAction: does the rule apply to the action?
unfoldable pub allows_action : AclRule → Action → Bool
unfolding str_eq
allows_action r action = any (λ a. str_eq a action) r.actions

-- resolvedFilter: %c and then %u give way to the client ID and the user name.
unfoldable pub resolved_filter : AclRule → Str → Str → Str
unfolding replace_pair
resolved_filter r client_id username =
    replace_pair b'%' b'u' username (replace_pair b'%' b'c' client_id r.topic_filter)

pub record Role : Type 0 where
  pub name : Str
  pub rules : List AclRule
