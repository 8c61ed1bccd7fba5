-- ===== src/Raft/Fsm/Rulesets.antt =====
-- fsm.go: a ruleset that is disabled leaves the map, so that evaluateACL, which reads its keys, and
-- enabledRulesetsSnapshot, which reads its values, see the same rulesets.
use keel_mqtt_gateway.Prelude.{
  ℕ, ◌≡◌, refl, Bool, true, Option, List, [], ◌∷◌, Str, Dict, AllValues, insert-AllValues,
  delete-AllValues, arith,
}
use keel_mqtt_gateway.Raft.Command.{Command}
use keel_mqtt_gateway.Raft.Fsm.{
  State, ApplyResult, claim_session, release_session, delete_role, create_binding, delete_binding,
  apply_log, replay,
}
use keel_mqtt_gateway.Raft.Fsm.Steps.{
  Step, claims, releases, creates_role, deletes_role, creates_binding, deletes_binding, enables,
  disables, sets_primary, revokes, rejects, apply-Step, keeps-apply_log,
}

-- No entry of the map of enabled rulesets says false.
abbrev pub AllEnabled : Dict Bool → Type 0
AllEnabled = AllValues (λ b. b ≡ true)

Step-AllEnabled :
    {now : ℕ} {cmd : Command} {s : State} {o : Str} {r : State × ApplyResult}
    → Step now cmd s o r
    → AllEnabled s.enabled_rulesets
    → AllEnabled (r.0).enabled_rulesets
unfolding claim_session
Step-AllEnabled (claims h) a = ground arith
Step-AllEnabled (releases h) a = unfold release_session in ground arith
Step-AllEnabled (creates_role h) a = a
Step-AllEnabled (deletes_role h) a = unfold delete_role in a
Step-AllEnabled (creates_binding h) a = unfold create_binding in ground arith
Step-AllEnabled (deletes_binding h) a = unfold delete_binding in a
Step-AllEnabled {cmd} {s} (enables h) a =
    insert-AllValues (λ b. b ≡ true) cmd.ruleset_name true s.enabled_rulesets refl a
Step-AllEnabled {cmd} {s} (disables h) a =
    delete-AllValues (λ b. b ≡ true) cmd.ruleset_name s.enabled_rulesets a
Step-AllEnabled (sets_primary h) a = a
Step-AllEnabled (revokes h) a = a
Step-AllEnabled rejects a = a

pub replay-AllEnabled :
    (log : List (ℕ × Option Command)) (s : State)
    → AllEnabled s.enabled_rulesets
    → AllEnabled (replay log s).enabled_rulesets
unfolding replay
replay-AllEnabled [] s a = a
replay-AllEnabled ((now, entry) ∷ log) s a = replay-AllEnabled log (apply_log now entry s).0 (
    keeps-apply_log (λ t. AllEnabled t.enabled_rulesets) now entry s
      (λ cmd. Step-AllEnabled (apply-Step now cmd s) a) a)
