-- ===== src/Raft/Fsm/Steps.antt =====
-- fsm.go, Apply: what each operation of the log does to the state, one rule for each case of the
-- switch.
use keel_mqtt_gateway.Prelude.{
  ℕ, ◌≡◌, refl, subst, sym, ap, true, Option, none, some, [], str_eq, str_eq_iff, insert, delete,
  if_cases,
}
use keel_mqtt_gateway.Raft.Command.{
  Op, Command, op_claim_session, op_release_session, op_create_role, op_delete_role,
  op_create_binding, op_delete_binding, op_enable_ruleset, op_disable_ruleset, op_set_redis_primary,
  op_revoke_certificate,
}
use keel_mqtt_gateway.Raft.Fsm.{
  State, ApplyResult, applied, unknown_op, claim_session, release_session, drop_role, delete_role,
  create_binding, delete_binding, dispatch, apply, apply_log,
}

pub data Step (now : ℕ) (cmd : Command) (s : State) : Op → State × ApplyResult → Type 0 where
  claims : {o : Op} → o ≡ op_claim_session → Step now cmd s o (claim_session cmd s)
  releases :
      {o : Op} → o ≡ op_release_session → Step now cmd s o (release_session cmd s, applied [])
  creates_role :
      {o : Op}
      → o ≡ op_create_role
      → Step now cmd s o (
        record s {
          roles = insert cmd.role_name (record { name = cmd.role_name; rules = cmd.rules }) s.roles;
        },
        applied [],
      )
  deletes_role : {o : Op} → o ≡ op_delete_role → Step now cmd s o (delete_role cmd s, applied [])
  creates_binding :
      {o : Op} → o ≡ op_create_binding → Step now cmd s o (create_binding cmd s, applied [])
  deletes_binding :
      {o : Op} → o ≡ op_delete_binding → Step now cmd s o (delete_binding cmd s, applied [])
  enables :
      {o : Op}
      → o ≡ op_enable_ruleset
      → Step now cmd s o (
        record s { enabled_rulesets = insert cmd.ruleset_name true s.enabled_rulesets },
        applied [],
      )
  disables :
      {o : Op}
      → o ≡ op_disable_ruleset
      → Step now cmd s o
          (record s { enabled_rulesets = delete cmd.ruleset_name s.enabled_rulesets }, applied [])
  sets_primary :
      {o : Op}
      → o ≡ op_set_redis_primary
      → Step now cmd s o (record s { redis_primary = cmd.node_id }, applied [])
  revokes :
      {o : Op}
      → o ≡ op_revoke_certificate
      → Step now cmd s o (record s { revoked = insert cmd.identity now s.revoked }, applied [])
  rejects : {o : Op} → Step now cmd s o (s, unknown_op o)

dispatch-Step :
    (op : Op) (now : ℕ) (cmd : Command) (s : State) → Step now cmd s op (dispatch op now cmd s)
unfolding dispatch
dispatch-Step op now cmd s =
    let P = Step now cmd s op in
    let at = λ (o : Op). λ (h : str_eq op o ≡ true). (str_eq_iff op o).0 h in
    if_cases P _ _ _ (λ h. claims (at op_claim_session h))
      λ _.
        if_cases P _ _ _ (λ h. releases (at op_release_session h))
          λ _.
            if_cases P _ _ _ (λ h. creates_role (at op_create_role h))
              λ _.
                if_cases P _ _ _ (λ h. deletes_role (at op_delete_role h))
                  λ _.
                    if_cases P _ _ _ (λ h. creates_binding (at op_create_binding h))
                      λ _.
                        if_cases P _ _ _ (λ h. deletes_binding (at op_delete_binding h))
                          λ _.
                            if_cases P _ _ _ (λ h. enables (at op_enable_ruleset h))
                              λ _.
                                if_cases P _ _ _ (λ h. disables (at op_disable_ruleset h))
                                  λ _.
                                    if_cases P _ _ _ (λ h. sets_primary (at op_set_redis_primary h))
                                      λ _.
                                        if_cases P _ _ _ (λ h. revokes (at op_revoke_certificate h))
                                          λ _. rejects

pub apply-Step : (now : ℕ) (cmd : Command) (s : State) → Step now cmd s cmd.op (apply now cmd s)
unfolding apply
apply-Step now cmd s = dispatch-Step cmd.op now cmd s

-- What every operation keeps, the log keeps: entries that do not decode change nothing.
pub keeps-apply_log {ℓ} :
    (P : State → Type ℓ) (now : ℕ) (entry : Option Command) (s : State)
    → ((cmd : Command) → P (apply now cmd s).0)
    → P s
    → P (apply_log now entry s).0
unfolding apply_log
keeps-apply_log P now none s keep h = h
keeps-apply_log P now (some cmd) s keep h = keep cmd

-- The case of the switch that a known operation takes.
module _ (now : ℕ) (cmd : Command) (s : State) where
  pub apply_claim : cmd.op ≡ op_claim_session → apply now cmd s ≡ claim_session cmd s
  unfolding apply dispatch str_eq
  apply_claim h = subst (λ o. dispatch o now cmd s ≡ claim_session cmd s) (sym h) refl

  pub apply_release :
      cmd.op ≡ op_release_session → apply now cmd s ≡ (release_session cmd s, applied [])
  unfolding apply dispatch str_eq
  apply_release h =
      subst (λ o. dispatch o now cmd s ≡ (release_session cmd s, applied [])) (sym h) refl

  pub apply-delete_role :
      cmd.op ≡ op_delete_role → apply now cmd s ≡ (delete_role cmd s, applied [])
  unfolding apply dispatch str_eq
  apply-delete_role h =
      subst (λ o. dispatch o now cmd s ≡ (delete_role cmd s, applied [])) (sym h) refl

  pub apply_revoke :
      cmd.op ≡ op_revoke_certificate
      → apply now cmd s ≡ (record s { revoked = insert cmd.identity now s.revoked }, applied [])
  unfolding apply dispatch str_eq
  apply_revoke h =
      subst
        (λ o.
          dispatch o now cmd s
          ≡ (record s { revoked = insert cmd.identity now s.revoked }, applied []))
        (sym h) refl

  pub apply_create_role :
      cmd.op ≡ op_create_role
      → apply now cmd s ≡ (
        record s {
          roles = insert cmd.role_name (record { name = cmd.role_name; rules = cmd.rules }) s.roles;
        },
        applied [],
      )
  unfolding apply dispatch str_eq
  apply_create_role h =
      subst
        (λ o. dispatch o now cmd s ≡ (
          record s {
            roles =
                insert cmd.role_name (record { name = cmd.role_name; rules = cmd.rules }) s.roles;
          },
          applied [],
        ))
        (sym h) refl

  pub delete_role_bindings :
      cmd.op ≡ op_delete_role → (apply now cmd s).0.bindings ≡ drop_role cmd.role_name s.bindings
  unfolding delete_role
  delete_role_bindings h = ap (λ r. r.0.bindings) (apply-delete_role h)
