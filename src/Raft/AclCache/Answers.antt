-- ===== src/Raft/AclCache/Answers.antt =====
-- acl_cache.go against fsm.go: an edge node answers from its cache as the core did whose state it
-- fetched last.
use keel_mqtt_gateway.Prelude.{
  ℕ, ◌≡◌, ◌∙◌, refl, ap, Bool, Option, none, some, List, [], ◌∷◌, map, Str, Dict, lookup,
  Option-cases, inl, inr, arith,
}
use keel_mqtt_gateway.Acl.Model.{effect_deny, Role}
use keel_mqtt_gateway.Acl.Evaluate.{Request, Decision}
use keel_mqtt_gateway.Acl.Standard.{standard_rulesets}
use keel_mqtt_gateway.Raft.Command.{Command}
use keel_mqtt_gateway.Raft.Fsm.{State, new_state, replay}
use keel_mqtt_gateway.Raft.Fsm.Rulesets.{AllEnabled, replay-AllEnabled}
use keel_mqtt_gateway.Raft.Reads.{
  enabled_names, enabled_roles, rules_or_none, rules_named, custom_rules, evaluate_acl,
}
use keel_mqtt_gateway.Raft.AclCache.{
  AclSnapshot, named_roles, acl_response, acl_snapshot, AclCache, new_acl_cache, acl_refresh,
  acl_refresh_all, known_roles, evaluate_cached,
}

known_roles-enabled_names :
    (m : Dict Bool) → AllEnabled m → known_roles (enabled_names m) ≡ enabled_roles m
unfolding known_roles enabled_names enabled_roles
known_roles-enabled_names [] a = refl
known_roles-enabled_names ((name, b) ∷ m) a = elim (Option-cases (lookup name standard_rulesets)) [
  | inl e ↦ rw (a.0, e) (known_roles-enabled_names m a.1)
  | inr (role, e) ↦ rw (a.0, e) (ap (λ roles. role ∷ roles) (known_roles-enabled_names m a.1))
]

rules_or_none-named_roles :
    (m : Dict Role) (rn : Str)
    → rules_or_none (lookup rn (named_roles m)) ≡ rules_or_none (lookup rn m)
unfolding named_roles lookup
rules_or_none-named_roles [] rn = refl
rules_or_none-named_roles ((name, role) ∷ m) rn = ground (arith, rules_or_none-named_roles m rn)

rules_named-named_roles :
    (m : Dict Role) (names : List Str) → rules_named (named_roles m) names ≡ rules_named m names
unfolding rules_named
rules_named-named_roles m [] = refl
rules_named-named_roles m (rn ∷ names) =
    rw (rules_or_none-named_roles m rn, rules_named-named_roles m names) refl

custom_rules-named_roles :
    (c u : Str) (roles : Dict Role) (m : Dict (List Str))
    → custom_rules c u (named_roles roles) m ≡ custom_rules c u roles m
unfolding custom_rules
custom_rules-named_roles c u roles [] = refl
custom_rules-named_roles c u roles ((p, names) ∷ m) =
    rw (rules_named-named_roles roles names, custom_rules-named_roles c u roles m) refl

-- The log that a core has applied.
abbrev pub Log : Type 0
Log = List (ℕ × Option Command)

-- What a core had applied at the first of the three reads, and applied before each of the others.
pub record Reads : Type 0 where
  pub applied : Log
  pub before_second : Log
  pub before_third : Log

abbrev at_roles : Reads → State
at_roles r = replay r.applied new_state

abbrev at_bindings : Reads → State
at_bindings r = replay r.before_second (at_roles r)

abbrev at_rulesets : Reads → State
at_rulesets r = replay r.before_third (at_bindings r)

-- What a fetch answers: the snapshot of a core, or an error.
abbrev pub fetched_from : Option Reads → Option AclSnapshot
fetched_from none = none
fetched_from (some r) = some (acl_snapshot (at_roles r) (at_bindings r) (at_rulesets r))

-- The fetch that answered last, or what was known before.
abbrev pub last_reads : List (Option Reads) → Option Reads → Option Reads
last_reads [] known = known
last_reads (none ∷ later) known = last_reads later known
last_reads (some r ∷ later) known = last_reads later (some r)

-- The state that the reads were of, where nothing was applied between them; otherwise a state that
-- the core may never have been in.
abbrev pub pieced : Reads → State
pieced r = record (at_roles r) {
  bindings = (at_bindings r).bindings;
  enabled_rulesets = (at_rulesets r).enabled_rulesets;
}

-- What the state machine decides there; without an answer, every request is denied.
abbrev pub decided_by : Option Reads → Request → Decision
decided_by none q = record { effect = effect_deny; rule = none }
decided_by (some r) q = evaluate_acl (pieced r) q

-- What the cache holds after a fetch.
abbrev cached : Option Reads → AclCache
cached known = acl_refresh (fetched_from known) new_acl_cache

rulesets-AllEnabled : (r : Reads) → AllEnabled (at_rulesets r).enabled_rulesets
rulesets-AllEnabled r =
    replay-AllEnabled r.before_third (at_bindings r)
      (replay-AllEnabled r.before_second (at_roles r) (replay-AllEnabled r.applied new_state tt))

evaluate_cached-cached :
    (known : Option Reads) (q : Request) → evaluate_cached (cached known) q ≡ decided_by known q
unfolding evaluate_cached evaluate_acl acl_refresh acl_snapshot acl_response
evaluate_cached-cached none q = refl
evaluate_cached-cached (some r) q =
    rw
      (
        known_roles-enabled_names (at_rulesets r).enabled_rulesets (rulesets-AllEnabled r),
        custom_rules-named_roles q.client_id q.username (at_roles r).roles (at_bindings r).bindings,
      )
      refl

acl_refresh_all-cached :
    (answers : List (Option Reads)) (known : Option Reads)
    → acl_refresh_all (map fetched_from answers) (cached known) ≡ cached (last_reads answers known)
unfolding acl_refresh_all acl_refresh
acl_refresh_all-cached [] known = refl
acl_refresh_all-cached (none ∷ later) known = acl_refresh_all-cached later known
acl_refresh_all-cached (some r ∷ later) none = acl_refresh_all-cached later (some r)
acl_refresh_all-cached (some r ∷ later) (some r') = acl_refresh_all-cached later (some r)

-- Whatever its fetches answered, each an error or what a core, whose log goes on in between,
-- answers in three reads, an edge node denies every request until one has answered, and then
-- decides each as the state machine would in the state that is pieced together from the reads of
-- the last answer: the roles of the first, the bindings of the second and the rulesets of the
-- third, which is the core's own state where it applied nothing between them.
pub cached_acl :
    (answers : List (Option Reads)) (q : Request)
    → evaluate_cached (acl_refresh_all (map fetched_from answers) new_acl_cache) q
      ≡ decided_by (last_reads answers none) q
unfolding acl_refresh
cached_acl answers q =
    ap (λ c. evaluate_cached c q) (acl_refresh_all-cached answers none)
    ∙ evaluate_cached-cached (last_reads answers none) q
