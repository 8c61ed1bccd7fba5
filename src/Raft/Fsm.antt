-- ===== src/Raft/Fsm.antt =====
-- internal/cluster/raft/fsm.go: the state, and Apply. The clock that OpRevokeCertificate reads is
-- an argument; the decoded command is an argument too, `none` where json.Unmarshal fails.
pub mod Steps
pub mod Sessions
pub mod Bindings
pub mod Rulesets
use keel_mqtt_gateway.Prelude.{
  ℕ, Bool, true, false, not, Option, none, some, List, [], ◌∷◌, ◌++◌, Str, Dict, str_eq, lookup,
  insert, delete, any, keep, is_nil, if◌then◌else◌,
}
use keel_mqtt_gateway.Acl.Model.{AclRule, Role}
use keel_mqtt_gateway.Raft.Command.{
  Op, Command, op_claim_session, op_release_session, op_create_role, op_delete_role,
  op_create_binding, op_delete_binding, op_enable_ruleset, op_disable_ruleset, op_set_redis_primary,
  op_revoke_certificate,
}

pub record State : Type 0 where
  -- client ID -> owning node
  pub sessions : Dict Str
  -- client ID -> certificate identity
  pub session_identity : Dict Str
  pub roles : Dict Role
  -- principal -> role names
  pub bindings : Dict (List Str)
  pub enabled_rulesets : Dict Bool
  pub redis_primary : Str
  -- identity -> seconds of the clock at its revocation
  pub revoked : Dict ℕ

abbrev pub new_state : State
new_state = record {
  sessions = [];
  session_identity = [];
  roles = [];
  bindings = [];
  enabled_rulesets = [];
  redis_primary = [];
  revoked = [];
}

-- applyResult: an error, or ok with the evicted node ("" for none).
pub data ApplyResult : Type 0 where
  applied : Str → ApplyResult
  unmarshal_error : ApplyResult
  unknown_op : Str → ApplyResult

-- The node that loses the session, "" for none.
abbrev evicted_from : Option Str → Str → Str
evicted_from none node = []
evicted_from (some owner) node = if not (str_eq owner node) then owner else []

pub claim_session : Command → State → State × ApplyResult
unfolding str_eq lookup insert delete
claim_session cmd s =
    let evicted = evicted_from (lookup cmd.client_id s.sessions) cmd.node_id in
    let identities =
      if not (is_nil cmd.identity)
      then insert cmd.client_id cmd.identity s.session_identity
      else delete cmd.client_id s.session_identity in
    (
      record s {
        sessions = insert cmd.client_id cmd.node_id s.sessions;
        session_identity = identities;
      },
      applied evicted,
    )

abbrev owned_by : Option Str → Str → Bool
owned_by none node = false
owned_by (some owner) node = str_eq owner node

pub release_session : Command → State → State
unfolding str_eq lookup delete
release_session cmd s =
    if owned_by (lookup cmd.client_id s.sessions) cmd.node_id
    then record s {
      sessions = delete cmd.client_id s.sessions;
      session_identity = delete cmd.client_id s.session_identity;
    }
    else s

-- The role names other than the given one, as the two loops that filter in place keep them.
abbrev pub without_role : Str → List Str → List Str
without_role role = keep (λ rn. not (str_eq rn role))

-- The body of the loop over the bindings: an emptied entry is deleted.
abbrev rebind : Str → List Str → Dict (List Str) → Dict (List Str)
rebind principal [] rest = rest
rebind principal (rn ∷ kept) rest = (principal, rn ∷ kept) ∷ rest

pub drop_role : Str → Dict (List Str) → Dict (List Str)
unfolding str_eq
drop_role role [] = []
drop_role role ((principal, names) ∷ m) =
    rebind principal (without_role role names) (drop_role role m)

pub delete_role : Command → State → State
unfolding drop_role delete str_eq
delete_role cmd s = record s {
  roles = delete cmd.role_name s.roles;
  bindings = drop_role cmd.role_name s.bindings;
}

-- A missing key reads as the nil slice.
abbrev pub names_of : Option (List Str) → List Str
names_of none = []
names_of (some names) = names

abbrev pub bound_to : Str → Dict (List Str) → List Str
bound_to principal m = names_of (lookup principal m)

pub create_binding : Command → State → State
unfolding lookup insert str_eq
create_binding cmd s =
    let existing = bound_to cmd.principal s.bindings in
    if any (λ rn. str_eq rn cmd.role_name) existing
    then s
    else record s { bindings = insert cmd.principal (existing ++ cmd.role_name ∷ []) s.bindings }

abbrev store_kept : Str → List Str → Dict (List Str) → Dict (List Str)
store_kept principal [] m = delete principal m
store_kept principal (rn ∷ kept) m = insert principal (rn ∷ kept) m

pub delete_binding : Command → State → State
unfolding lookup insert delete str_eq
delete_binding cmd s =
    let kept = without_role cmd.role_name (bound_to cmd.principal s.bindings) in
    record s { bindings = store_kept cmd.principal kept s.bindings }

-- The switch of Apply on the operation, at the time `now`.
pub dispatch : Op → ℕ → Command → State → State × ApplyResult
unfolding str_eq insert delete claim_session release_session delete_role create_binding
    delete_binding
dispatch op now cmd s =
    if str_eq op op_claim_session
    then claim_session cmd s
    else if str_eq op op_release_session
    then (release_session cmd s, applied [])
    else if str_eq op op_create_role
    then (
      record s {
        roles = insert cmd.role_name (record { name = cmd.role_name; rules = cmd.rules }) s.roles;
      },
      applied [],
    )
    else if str_eq op op_delete_role
    then (delete_role cmd s, applied [])
    else if str_eq op op_create_binding
    then (create_binding cmd s, applied [])
    else if str_eq op op_delete_binding
    then (delete_binding cmd s, applied [])
    else if str_eq op op_enable_ruleset
    then (
      record s { enabled_rulesets = insert cmd.ruleset_name true s.enabled_rulesets },
      applied [],
    )
    else if str_eq op op_disable_ruleset
    then (record s { enabled_rulesets = delete cmd.ruleset_name s.enabled_rulesets }, applied [])
    else if str_eq op op_set_redis_primary
    then (record s { redis_primary = cmd.node_id }, applied [])
    else if str_eq op op_revoke_certificate
    then (record s { revoked = insert cmd.identity now s.revoked }, applied [])
    else (s, unknown_op op)

pub apply : ℕ → Command → State → State × ApplyResult
unfolding dispatch
apply now cmd s = dispatch cmd.op now cmd s

-- Apply, on the decoded log entry.
pub apply_log : ℕ → Option Command → State → State × ApplyResult
unfolding apply
apply_log now none s = (s, unmarshal_error)
apply_log now (some cmd) s = apply now cmd s

-- The log of a replica: each entry with the time at which this replica applies it.
unfoldable pub replay : List (ℕ × Option Command) → State → State
unfolding apply_log
replay [] s = s
replay ((now, entry) ∷ log) s = replay log (apply_log now entry s).0
