-- ===== src/Raft/Reads.antt =====
-- internal/cluster/raft/fsm.go: what the registry reads from the state, ACL evaluation included.
pub mod Roles
use keel_mqtt_gateway.Prelude.{
  Bool, true, false, not, ◌&&◌, Option, none, some, List, [], ◌∷◌, ◌++◌, Str, Dict, str_eq, lookup,
  has_some, is_nil, if◌then◌else◌,
}
use keel_mqtt_gateway.Acl.Model.{AclRule, Role}
use keel_mqtt_gateway.Acl.Evaluate.{Request, Decision, evaluate}
use keel_mqtt_gateway.Acl.Standard.{standard_rulesets}
use keel_mqtt_gateway.Raft.Fsm.{State}

-- sessionOwner.
unfoldable pub session_owner : State → Str → Option Str
unfolding lookup str_eq
session_owner s client_id = lookup client_id s.sessions

ids_with : Str → Dict Str → List Str
ids_with identity [] = []
ids_with identity ((client_id, id) ∷ m) =
    if str_eq id identity then client_id ∷ ids_with identity m else ids_with identity m

-- clientIDsForIdentity.
unfoldable pub client_ids_for_identity : State → Str → List Str
unfolding ids_with str_eq
client_ids_for_identity s identity = ids_with identity s.session_identity

-- currentRedisPrimary: `none` is ok = false.
unfoldable pub current_redis_primary : State → Option Str
current_redis_primary s = if is_nil s.redis_primary then none else some s.redis_primary

-- isRevoked.
unfoldable pub is_revoked : State → Str → Bool
unfolding lookup str_eq
is_revoked s identity = has_some (lookup identity s.revoked)

-- enabledRulesetsSnapshot.
unfoldable pub enabled_names : Dict Bool → List Str
enabled_names [] = []
enabled_names ((name, enabled) ∷ m) = if enabled then name ∷ enabled_names m else enabled_names m

-- The first loop of evaluateACL: a name that the binary does not know contributes nothing.
unfoldable pub enabled_roles : Dict Bool → List Role
unfolding lookup str_eq
enabled_roles [] = []
enabled_roles ((name, enabled) ∷ m) = elim (lookup name standard_rulesets) [
  | none ↦ enabled_roles m
  | some role ↦ role ∷ enabled_roles m
]

abbrev pub rules_or_none : Option Role → List AclRule
rules_or_none none = []
rules_or_none (some role) = role.rules

unfoldable pub rules_named : Dict Role → List Str → List AclRule
unfolding lookup str_eq
rules_named roles [] = []
rules_named roles (rn ∷ names) = rules_or_none (lookup rn roles) ++ rules_named roles names

-- The second loop of evaluateACL.
unfoldable pub custom_rules : Str → Str → Dict Role → Dict (List Str) → List AclRule
unfolding rules_named str_eq
custom_rules client_id username roles [] = []
custom_rules client_id username roles ((principal, names) ∷ m) =
    let rest = custom_rules client_id username roles m in
    if not (str_eq principal client_id) && not (str_eq principal username)
    then rest
    else rules_named roles names ++ rest

-- evaluateACL.
unfoldable pub evaluate_acl : State → Request → Decision
unfolding enabled_roles custom_rules evaluate
evaluate_acl s q =
    evaluate q (enabled_roles s.enabled_rulesets)
      (custom_rules q.client_id q.username s.roles s.bindings)
