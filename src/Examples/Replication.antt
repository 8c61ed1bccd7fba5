-- ===== src/Examples/Replication.antt =====
-- Logs of two nodes n1 and n2, and a client c.
use keel_mqtt_gateway.Prelude.{
  Dict, ℕ, ◌≡◌, refl, map, true, Option, none, some, List, [], ◌∷◌, Str, codes, str_eq, lookup,
}
use keel_mqtt_gateway.Acl.Model.{AclRule, action_publish, effect_allow, effect_deny}
use keel_mqtt_gateway.Acl.Evaluate.{Request, is_allowed}
use keel_mqtt_gateway.Raft.Command.{
  Op, Command, op_claim_session, op_release_session, op_create_role, op_delete_role,
  op_create_binding, op_revoke_certificate,
}
use keel_mqtt_gateway.Raft.Fsm.{State, new_state, replay}
use keel_mqtt_gateway.Raft.Fsm.Sessions.{IdentitiesOwned, replay-owner, replay-IdentitiesOwned}
use keel_mqtt_gateway.Raft.Fsm.Bindings.{BindingsValid, replay-BindingsValid}
use keel_mqtt_gateway.Raft.AclCache.{
  acl_response, acl_snapshot, new_acl_cache, acl_refresh_all, evaluate_cached,
}
use keel_mqtt_gateway.Raft.AclCache.Answers.{
  Log, Reads, fetched_from, last_reads, decided_by, cached_acl,
}
use keel_mqtt_gateway.Raft.Snapshot.{
  Json, Decoded, snapshot, through_json, persist, restore, restore-snapshot,
}

abbrev command : Op → Command
command op = record {
  op = op;
  node_id = [];
  client_id = [];
  role_name = [];
  rules = [];
  principal = [];
  ruleset_name = [];
  identity = [];
  serial = [];
}

abbrev claim_by : Str → Command
claim_by node = record (command op_claim_session) {
  node_id = node;
  client_id = codes "c";
  identity = codes "id";
}

abbrev release_by : Str → Command
release_by node = record (command op_release_session) { node_id = node; client_id = codes "c" }

abbrev bind_publisher : Command
bind_publisher = record (command op_create_binding) {
  principal = codes "c";
  role_name = codes "publisher";
}

abbrev create_publisher : List AclRule → Command
create_publisher rules = record (command op_create_role) {
  role_name = codes "publisher";
  rules = rules;
}

abbrev delete_publisher : Command
delete_publisher = record (command op_delete_role) { role_name = codes "publisher" }

abbrev revoke_id : Command
revoke_id = record (command op_revoke_certificate) { identity = codes "id" }

-- n1 owns c, and c is bound to the publisher role.
abbrev claimed : State
claimed = record new_state {
  sessions = (codes "c", codes "n1") ∷ [];
  session_identity = (codes "c", codes "id") ∷ [];
  bindings = (codes "c", codes "publisher" ∷ codes "reader" ∷ []) ∷ [];
}

-- n2 takes c over, and n1 releases it too late.
abbrev takeover : List (ℕ × Option Command)
takeover = (5, some (claim_by (codes "n2"))) ∷ (6, some (release_by (codes "n1"))) ∷ []

takeover_owner : lookup (codes "c") (replay takeover claimed).sessions ≡ some (codes "n2")
unfolding replay lookup
takeover_owner = refl

replay-owner_example :
    lookup
      (codes "c")
      (replay
        ((6, some (release_by (codes "n2"))) ∷ (7, some revoke_id) ∷ (8, none) ∷ [])
        claimed).sessions
    ≡ some (codes "n1")
unfolding str_eq lookup
replay-owner_example =
    replay-owner ((6, some (release_by (codes "n2"))) ∷ (7, some revoke_id) ∷ (8, none) ∷ [])
      claimed (codes "c") (codes "n1") (refl, (refl, (refl, tt))) refl

new_state-IdentitiesOwned : IdentitiesOwned new_state
unfolding lookup
new_state-IdentitiesOwned c = refl

replay-IdentitiesOwned_example : IdentitiesOwned (replay takeover new_state)
replay-IdentitiesOwned_example = replay-IdentitiesOwned takeover new_state new_state-IdentitiesOwned

new_state-BindingsValid : BindingsValid (new_state.bindings)
new_state-BindingsValid = record { one_entry = tt; proper = tt }

replay-BindingsValid_example :
    BindingsValid
      (replay
        ((1, some bind_publisher) ∷ (2, some bind_publisher) ∷ (3, some delete_publisher) ∷ [])
        new_state).bindings
replay-BindingsValid_example =
    replay-BindingsValid
      ((1, some bind_publisher) ∷ (2, some bind_publisher) ∷ (3, some delete_publisher) ∷ [])
      new_state new_state-BindingsValid

abbrev publish_event : Request
publish_event = record {
  client_id = codes "c";
  username = codes "u";
  topic = codes "a/b";
  action = action_publish;
}

abbrev rule : Str → AclRule
rule effect = record { topic_filter = codes "a/#"; actions = action_publish ∷ []; effect = effect }

-- A codec that keeps the snapshot as it is.
abbrev plain_json : Json
plain_json = record {
  Blob = Decoded;
  encode = through_json;
  decode = some;
  decode-encode = λ s. refl;
}

restore-snapshot_example :
    restore plain_json (persist plain_json (snapshot claimed)) new_state ≡ (claimed, true)
restore-snapshot_example = restore-snapshot plain_json claimed new_state

-- A fetch that fails, one that finds "id" revoked, and another failure.
abbrev fetches : List (Option (Dict ℕ))
fetches = none ∷ some ((codes "id", 9) ∷ []) ∷ none ∷ []

-- One core has the role and its binding, the other has deleted the role since.
abbrev core_log : Log
core_log = (1, some (create_publisher (rule effect_allow ∷ []))) ∷ (2, some bind_publisher) ∷ []

abbrev later_log : Log
later_log =
    (1, some (create_publisher (rule effect_allow ∷ [])))
    ∷ (2, some bind_publisher)
    ∷ (3, some delete_publisher)
    ∷ []

abbrev whole : Log → Reads
whole log = record { applied = log; before_second = []; before_third = [] }

-- Between the reads of roles and of bindings, the role is created anew to deny, and only then bound.
abbrev torn : Reads
torn = record {
  applied = (1, some (create_publisher (rule effect_allow ∷ []))) ∷ [];
  before_second =
      (2, some delete_publisher)
      ∷ (3, some (create_publisher (rule effect_deny ∷ [])))
      ∷ (4, some bind_publisher)
      ∷ [];
  before_third = [];
}

cached_acl_example :
    evaluate_cached
      (acl_refresh_all
        (map fetched_from (none ∷ some (whole later_log) ∷ some torn ∷ none ∷ []))
        new_acl_cache)
      publish_event
    ≡ decided_by
        (last_reads (none ∷ some (whole later_log) ∷ some torn ∷ none ∷ []) none)
        publish_event
cached_acl_example =
    cached_acl (none ∷ some (whole later_log) ∷ some torn ∷ none ∷ []) publish_event

cached_publish :
    is_allowed (
      evaluate_cached
        (acl_refresh_all (map fetched_from (some (whole core_log) ∷ none ∷ [])) new_acl_cache)
        publish_event)
    ≡ true
unfolding is_allowed evaluate_cached acl_refresh_all acl_snapshot acl_response replay
cached_publish = refl

-- The edge allows what the core denies in every state that it goes through.
torn_publish :
    is_allowed (
      evaluate_cached
        (acl_refresh_all (map fetched_from (some torn ∷ [])) new_acl_cache)
        publish_event)
    ≡ true
unfolding is_allowed evaluate_cached acl_refresh_all acl_snapshot acl_response replay
torn_publish = refl
