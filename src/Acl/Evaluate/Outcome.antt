-- ===== src/Acl/Evaluate/Outcome.antt =====
-- evaluate.go: the outcome against a description that has no order and no scores in it.
use keel_mqtt_gateway.Prelude.{
  ◌≡◌, refl, sym, ◌∙◌, ap, Bool, true, false, not, ◌&&◌, ◌||◌, Option, none, some, List, [], ◌∷◌,
  ◌++◌, str_eq, str_eq_iff, any, has_some, if◌then◌else◌, arith,
}
use keel_mqtt_gateway.Acl.Topic.{match_topic, specificity}
use keel_mqtt_gateway.Acl.Model.{
  Effect, effect_allow, effect_deny, AclRule, allows_action, resolved_filter, Role,
}
use keel_mqtt_gateway.Acl.Evaluate.{
  Request, Best, Found, nothing_yet, nothing_found, improve, consider, consider_rules,
  consider_roles, conclude, evaluate, is_allowed,
}

-- The rule is about the requested action, and its filter, for this principal, matches the topic.
abbrev pub applies : Request → AclRule → Bool
applies q r =
    allows_action r q.action && match_topic (resolved_filter r q.client_id q.username) q.topic

abbrev pub forbids : Request → AclRule → Bool
forbids q r = applies q r && str_eq r.effect effect_deny

abbrev pub permits : Request → AclRule → Bool
permits q r = applies q r && str_eq r.effect effect_allow

-- The rules that Evaluate looks at: those of the enabled rulesets, then the custom ones.
abbrev pub rules_of : List Role → List AclRule
rules_of [] = []
rules_of (role ∷ roles) = role.rules ++ rules_of roles

-- The search for the best rule of one effect.
unfoldable pub fold_best : (AclRule → Bool) → List AclRule → Best → Best
fold_best p [] b = b
fold_best p (r ∷ rs) b =
    fold_best p rs (if p r then improve r (specificity r.topic_filter) b else b)

consider_rules-append :
    (q : Request) (rs ss : List AclRule) (b : Found)
    → consider_rules q (rs ++ ss) b ≡ consider_rules q ss (consider_rules q rs b)
unfolding consider_rules
consider_rules-append q [] ss b = refl
consider_rules-append q (r ∷ rs) ss b = consider_rules-append q rs ss (consider q r b)

consider_roles-rules_of :
    (q : Request) (roles : List Role) (b : Found)
    → consider_roles q roles b ≡ consider_rules q (rules_of roles) b
unfolding consider_roles
consider_roles-rules_of q [] b = unfold consider_rules in refl
consider_roles-rules_of q (role ∷ roles) b =
    consider_roles-rules_of q roles (consider_rules q role.rules b)
    ∙ sym (consider_rules-append q role.rules (rules_of roles) b)

consider-deny :
    (q : Request) (r : AclRule) (b : Found)
    → (consider q r b).deny
      ≡ (if forbids q r then improve r (specificity r.topic_filter) b.deny else b.deny)
unfolding consider
consider-deny q r b = ground arith

deny-ne-allow : (e : Effect) → str_eq e effect_deny ≡ true → str_eq e effect_allow ≡ false
deny-ne-allow e h = unfold str_eq in ground (arith, (str_eq_iff e effect_deny).0 h)

consider-allow :
    (q : Request) (r : AclRule) (b : Found)
    → (consider q r b).allow
      ≡ (if permits q r then improve r (specificity r.topic_filter) b.allow else b.allow)
unfolding consider
consider-allow q r b = ground (arith, deny-ne-allow r.effect)

consider_rules-deny :
    (q : Request) (rs : List AclRule) (b : Found)
    → (consider_rules q rs b).deny ≡ fold_best (forbids q) rs b.deny
unfolding consider_rules fold_best
consider_rules-deny q [] b = refl
consider_rules-deny q (r ∷ rs) b =
    consider_rules-deny q rs (consider q r b) ∙ ap (fold_best (forbids q) rs) (consider-deny q r b)

consider_rules-allow :
    (q : Request) (rs : List AclRule) (b : Found)
    → (consider_rules q rs b).allow ≡ fold_best (permits q) rs b.allow
unfolding consider_rules fold_best
consider_rules-allow q [] b = refl
consider_rules-allow q (r ∷ rs) b =
    consider_rules-allow q rs (consider q r b)
    ∙ ap (fold_best (permits q) rs) (consider-allow q r b)

-- Evaluate as two searches over one list of rules.
pub evaluate-fold_best :
    (q : Request) (roles : List Role) (custom : List AclRule)
    → let rs = rules_of roles ++ custom in
      evaluate q roles custom
      ≡ conclude
          (fold_best (forbids q) rs nothing_yet).rule
          (fold_best (permits q) rs nothing_yet).rule
unfolding evaluate
evaluate-fold_best q roles custom = rw (
  consider_roles-rules_of q roles nothing_found,
  ← consider_rules-append q (rules_of roles) custom nothing_found,
  consider_rules-deny q (rules_of roles ++ custom) nothing_found,
  consider_rules-allow q (rules_of roles ++ custom) nothing_found,
)

-- A rule is kept as soon as one passes the test.
fold_best-any :
    (p : AclRule → Bool) (rs : List AclRule) (b : Best)
    → has_some b.rule ≡ has_some b.score
    → has_some (fold_best p rs b).rule ≡ (has_some b.rule || any p rs)
unfolding fold_best improve
fold_best-any p [] b h = ground arith
fold_best-any p (r ∷ rs) b h = ground (
  arith,
  fold_best-any p rs b,
  fold_best-any p rs (record { rule = some r; score = some (specificity r.topic_filter) }),
)

conclude-is_allowed :
    (d a : Option AclRule) → is_allowed (conclude d a) ≡ (has_some a && not (has_some d))
unfolding conclude is_allowed
conclude-is_allowed (some d) (some a) = refl
conclude-is_allowed (some d) none = refl
conclude-is_allowed none (some a) = refl
conclude-is_allowed none none = refl

-- A request is allowed exactly when some rule that applies to it allows and none that applies
-- denies; the order of the rules and their scores play no part.
pub evaluate_outcome :
    (q : Request) (roles : List Role) (custom : List AclRule)
    → let rs = rules_of roles ++ custom in
      is_allowed (evaluate q roles custom) ≡ (any (permits q) rs && not (any (forbids q) rs))
evaluate_outcome q roles custom = rw (
  evaluate-fold_best q roles custom,
  conclude-is_allowed,
  fold_best-any (permits q) (rules_of roles ++ custom) nothing_yet refl,
  fold_best-any (forbids q) (rules_of roles ++ custom) nothing_yet refl,
)

conclude-decides :
    (d a : Option AclRule) → has_some (conclude d a).rule ≡ (has_some d || has_some a)
unfolding conclude
conclude-decides (some d) a = refl
conclude-decides none (some a) = refl
conclude-decides none none = refl

-- A decision names a rule exactly when some rule that applies denies or allows.
pub evaluate-decides :
    (q : Request) (roles : List Role) (custom : List AclRule)
    → let rs = rules_of roles ++ custom in
      has_some (evaluate q roles custom).rule ≡ (any (forbids q) rs || any (permits q) rs)
evaluate-decides q roles custom = rw (
  evaluate-fold_best q roles custom,
  conclude-decides,
  fold_best-any (permits q) (rules_of roles ++ custom) nothing_yet refl,
  fold_best-any (forbids q) (rules_of roles ++ custom) nothing_yet refl,
)
