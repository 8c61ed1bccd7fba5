-- ===== src/Raft/Command.antt =====
-- internal/cluster/raft/command.go: the unit of replication. Op is a string in the source, and a
-- log entry may name any operation.
use keel_mqtt_gateway.Prelude.{List, Str, codes}
use keel_mqtt_gateway.Acl.Model.{AclRule}

abbrev pub Op : Type 0
Op = Str

abbrev pub op_claim_session : Op
op_claim_session = codes "claim_session"

abbrev pub op_release_session : Op
op_release_session = codes "release_session"

abbrev pub op_create_role : Op
op_create_role = codes "acl.create_role"

abbrev pub op_delete_role : Op
op_delete_role = codes "acl.delete_role"

abbrev pub op_create_binding : Op
op_create_binding = codes "acl.create_binding"

abbrev pub op_delete_binding : Op
op_delete_binding = codes "acl.delete_binding"

abbrev pub op_enable_ruleset : Op
op_enable_ruleset = codes "acl.enable_ruleset"

abbrev pub op_disable_ruleset : Op
op_disable_ruleset = codes "acl.disable_ruleset"

abbrev pub op_set_redis_primary : Op
op_set_redis_primary = codes "redis.set_primary"

abbrev pub op_revoke_certificate : Op
op_revoke_certificate = codes "device_pki.revoke_certificate"

pub record Command : Type 0 where
  pub op : Op
  pub node_id : Str
  pub client_id : Str
  pub role_name : Str
  pub rules : List AclRule
  pub principal : Str
  pub ruleset_name : Str
  pub identity : Str
  pub serial : Str
