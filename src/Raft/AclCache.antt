-- ===== src/Raft/AclCache.antt =====
-- internal/cluster/raft/acl_cache.go: the ACL cache of an edge node, and the snapshot that
-- rpc_server.go answers and remote_registry.go reads. What a fetch answers is an input, `none` for
-- an error; the timer is left out.
pub mod Answers
use keel_mqtt_gateway.Prelude.{
  ◌≡◌, Bool, true, false, not, Option, none, some, List, [], ◌∷◌, Str, Dict, str_eq, lookup,
  if◌then◌else◌,
}
use keel_mqtt_gateway.Acl.Model.{effect_deny, Role}
use keel_mqtt_gateway.Acl.Evaluate.{Request, Decision, evaluate}
use keel_mqtt_gateway.Acl.Standard.{standard_rulesets}
use keel_mqtt_gateway.Raft.Fsm.{State}
use keel_mqtt_gateway.Raft.Reads.{enabled_names, custom_rules}

-- What ACLSnapshot answers.
pub record AclSnapshot : Type 0 where
  pub roles : Dict Role
  pub bindings : Dict (List Str)
  pub enabled : List Str

-- The roles as they come out of the response: each under the name that it was sent with.
unfoldable pub named_roles : Dict Role → Dict Role
named_roles [] = []
named_roles ((name, role) ∷ m) = (name, record { name = name; rules = role.rules }) ∷ named_roles m

-- RPCServer.ACLSnapshot: custom roles, bindings and enabled rulesets, in three reads of the core's
-- state, each under the lock on its own.
unfoldable pub acl_response : State → State → State → AclSnapshot
unfolding enabled_names
acl_response s1 s2 s3 = record {
  roles = s1.roles;
  bindings = s2.bindings;
  enabled = enabled_names s3.enabled_rulesets;
}

-- RemoteRegistry.ACLSnapshot, over the core that answers.
unfoldable pub acl_snapshot : State → State → State → AclSnapshot
unfolding named_roles acl_response
acl_snapshot s1 s2 s3 =
    let response = acl_response s1 s2 s3 in record response { roles = named_roles response.roles }

pub record AclCache : Type 0 where
  pub roles : Dict Role
  pub bindings : Dict (List Str)
  pub enabled : List Str
  pub ready : Bool

-- NewACLCache, before its first refresh.
abbrev pub new_acl_cache : AclCache
new_acl_cache = record { roles = []; bindings = []; enabled = []; ready = false }

-- refresh.
unfoldable pub acl_refresh : Option AclSnapshot → AclCache → AclCache
acl_refresh none c = c
acl_refresh (some fetched) c = record {
  roles = fetched.roles;
  bindings = fetched.bindings;
  enabled = fetched.enabled;
  ready = true;
}

-- The refreshes of NewACLCache and of loop, one after another.
unfoldable pub acl_refresh_all : List (Option AclSnapshot) → AclCache → AclCache
unfolding acl_refresh
acl_refresh_all [] c = c
acl_refresh_all (fetched ∷ later) c = acl_refresh_all later (acl_refresh fetched c)

-- The first loop of EvaluateACL: a name that the binary does not know contributes nothing.
unfoldable pub known_roles : List Str → List Role
unfolding lookup str_eq
known_roles [] = []
known_roles (name ∷ names) = elim (lookup name standard_rulesets) [
  | none ↦ known_roles names
  | some role ↦ role ∷ known_roles names
]

-- EvaluateACL, its second loop being that of the state machine.
unfoldable pub evaluate_cached : AclCache → Request → Decision
unfolding known_roles custom_rules evaluate
evaluate_cached c q =
    if not c.ready
    then record { effect = effect_deny; rule = none }
    else evaluate q (known_roles c.enabled) (custom_rules q.client_id q.username c.roles c.bindings)
