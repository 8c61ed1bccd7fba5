-- ===== src/Raft/Reads/Roles.antt =====
-- fsm.go, evaluateACL against the role operations: a recreated role grants nothing to the old
-- bindings, and a new deny is in force as soon as it is applied.
use keel_mqtt_gateway.Prelude.{
  ℕ, ◌≡◌, refl, ap, inl, inr, Bool, true, false, ◌||◌, List, [], ◌∷◌, Str, Dict, str_eq, str_eq_iff,
  lookup, insert, lookup-insert, AllValues, any, any-append, Bool-cases, arith,
}
use keel_mqtt_gateway.Acl.Model.{AclRule, Role}
use keel_mqtt_gateway.Acl.Evaluate.{Request, evaluate, is_allowed}
use keel_mqtt_gateway.Acl.Evaluate.Outcome.{forbids, rules_of, evaluate_outcome}
use keel_mqtt_gateway.Raft.Command.{Command, op_create_role, op_delete_role}
use keel_mqtt_gateway.Raft.Fsm.{State, bound_to, apply}
use keel_mqtt_gateway.Raft.Fsm.Steps.{apply_create_role, delete_role_bindings}
use keel_mqtt_gateway.Raft.Fsm.Bindings.{names_role, drop_role-clean}
use keel_mqtt_gateway.Raft.Reads.{
  enabled_roles, rules_or_none, rules_named, custom_rules, evaluate_acl,
}

rules_named-insert :
    (r : Str) (v : Role) (roles : Dict Role) (names : List Str)
    → names_role r names ≡ false
    → rules_named (insert r v roles) names ≡ rules_named roles names
unfolding rules_named
rules_named-insert r v roles [] h = refl
rules_named-insert r v roles (rn ∷ names) h = ground (
  arith,
  rules_named-insert r v roles names,
  lookup-insert r rn v roles,
  str_eq_iff rn r,
  str_eq_iff r rn,
)

custom_rules-insert :
    (c u r : Str) (v : Role) (roles : Dict Role) (m : Dict (List Str))
    → AllValues (λ names. names_role r names ≡ false) m
    → custom_rules c u (insert r v roles) m ≡ custom_rules c u roles m
unfolding custom_rules
custom_rules-insert c u r v roles [] h = refl
custom_rules-insert c u r v roles ((p, names) ∷ m) h =
    ground (arith, custom_rules-insert c u r v roles m h.1, rules_named-insert r v roles names h.0)

-- A role that is deleted and created again under its name decides nothing for those that were bound
-- to it before: every request is answered as if the new role were not there.
pub recreated_role :
    (now now' : ℕ) (deletion creation : Command) (s : State) (q : Request)
    → deletion.op ≡ op_delete_role
    → creation.op ≡ op_create_role
    → creation.role_name ≡ deletion.role_name
    → let t = (apply now deletion s).0 in
      evaluate_acl (apply now' creation t).0 q ≡ evaluate_acl t q
unfolding evaluate_acl
recreated_role now now' d c s q hd hc e =
    let t = (apply now d s).0 in
    let clean : AllValues (λ names. names_role c.role_name names ≡ false) t.bindings =
      rw (delete_role_bindings now d s hd, e) (drop_role-clean d.role_name s.bindings) in
    rw (apply_create_role now' c t hc) (
      ap (evaluate q (enabled_roles t.enabled_rulesets))
        (custom_rules-insert q.client_id q.username c.role_name _ t.roles t.bindings clean))

any-rules_named :
    (p : AclRule → Bool) (r : Str) (v : Role) (roles : Dict Role) (names : List Str)
    → names_role r names ≡ true
    → any p v.rules ≡ true
    → any p (rules_named (insert r v roles) names) ≡ true
unfolding rules_named
any-rules_named p r v roles [] h k = cc
any-rules_named p r v roles (rn ∷ names) h k = elim (Bool-cases (str_eq r rn)) [
  | inl e ↦ ground (
    arith,
    any-append p v.rules (rules_named (insert r v roles) names),
    lookup-insert r rn v roles,
  )
  | inr e ↦ ground (
    arith,
    any-rules_named p r v roles names,
    any-append p (rules_or_none (lookup rn (insert r v roles)))
        (rules_named (insert r v roles) names),
    str_eq_iff rn r,
    str_eq_iff r rn,
  )
]

any-custom_rules :
    (p : AclRule → Bool) (c u who r : Str) (roles : Dict Role) (m : Dict (List Str))
    → (str_eq who c || str_eq who u) ≡ true
    → any p (rules_named roles (bound_to who m)) ≡ true
    → any p (custom_rules c u roles m) ≡ true
unfolding custom_rules lookup
any-custom_rules p c u who r roles [] w h = unfold rules_named in cc
any-custom_rules p c u who r roles ((q, names) ∷ m) w h = ground (
  arith,
  any-custom_rules p c u who r roles m w,
  any-append p (rules_named roles names) (custom_rules c u roles m),
  str_eq_iff q who,
)

-- Once a role to which the client or its user name is bound holds a rule that denies the request,
-- the request is denied, whatever the state allowed before.
pub create_role_denies :
    (now : ℕ) (cmd : Command) (s : State) (q : Request) (who : Str)
    → cmd.op ≡ op_create_role
    → (str_eq who q.client_id || str_eq who q.username) ≡ true
    → names_role cmd.role_name (bound_to who s.bindings) ≡ true
    → any (forbids q) cmd.rules ≡ true
    → is_allowed (evaluate_acl (apply now cmd s).0 q) ≡ false
unfolding evaluate_acl
create_role_denies now cmd s q who h w b d =
    let role : Role = record { name = cmd.role_name; rules = cmd.rules } in
    let roles = insert cmd.role_name role s.roles in
    let custom = custom_rules q.client_id q.username roles s.bindings in
    let standard = rules_of (enabled_roles s.enabled_rulesets) in
    let denied : any (forbids q) custom ≡ true =
      any-custom_rules (forbids q) q.client_id q.username who cmd.role_name roles s.bindings w
        (any-rules_named (forbids q) cmd.role_name role s.roles (bound_to who s.bindings) b d) in
    rw (apply_create_role now cmd s h) (
      ground (
        arith,
        evaluate_outcome q (enabled_roles s.enabled_rulesets) custom,
        any-append (forbids q) standard custom,
      ))
