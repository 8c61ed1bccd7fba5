-- ===== src/Acl/Standard/Wildcards.antt =====
-- standard.go with resolvedFilter: a client ID that is itself a wildcard.
use mathlib.Core.Bool.{false≢true}
use keel_mqtt_gateway.Prelude.{
  ◌≡◌, refl, sym, ◌∙◌, subst, inr, ◌≢◌, Bool, true, false, ◌||◌, not, ◌&&◌, List, [], ◌∷◌, ◌++◌,
  Str, codes, split, split-ne-nil, str_eq, str_eq_iff, any, arith,
}
use keel_mqtt_gateway.Acl.Topic.{slash, hash, plus, match_topic}
use keel_mqtt_gateway.Acl.Topic.Levels.{
  Matches, rest, any_level, level, IsBlocked, blocked, levels, match_topic_iff,
}
use keel_mqtt_gateway.Acl.Model.{
  AclRule, effect_deny, action_publish, allows_action, resolved_filter,
}
use keel_mqtt_gateway.Acl.Evaluate.{Request, evaluate, is_allowed}
use keel_mqtt_gateway.Acl.Evaluate.Outcome.{evaluate_outcome, permits, forbids, rules_of}
use keel_mqtt_gateway.Acl.Standard.{grant, device_default}

-- A publish by a client that is called "+".
abbrev pub publish_as_plus : Str → Str → Request
publish_as_plus username topic = record {
  client_id = codes "+";
  username = username;
  topic = topic;
  action = action_publish;
}

levels-telemetry : (s : Str) → levels (codes "telemetry/" ++ s) ≡ codes "telemetry" ∷ levels s
unfolding split
levels-telemetry s = refl

Matches-telemetry :
    (ts : List Str) → ts ≢ [] → Matches (levels (codes "telemetry/+/#")) (codes "telemetry" ∷ ts)
unfolding split
Matches-telemetry [] n = absurd (n refl)
Matches-telemetry (t ∷ ts) n = level (codes "telemetry") (λ e. ground arith) (any_level t (rest ts))

abbrev starts_wild : List Str → Bool
starts_wild [] = false
starts_wild (f ∷ fs) = str_eq f hash || str_eq f plus

IsBlocked-starts_wild : {fs ts : List Str} → IsBlocked fs ts → starts_wild fs ≡ true
IsBlocked-starts_wild (blocked f t fs ts d n w) =
    ground (arith, str_eq_iff f hash, str_eq_iff f plus)

match_topic-telemetry :
    (s : Str) → match_topic (codes "telemetry/+/#") (codes "telemetry/" ++ s) ≡ true
match_topic-telemetry s = (match_topic_iff (codes "telemetry/+/#") (codes "telemetry/" ++ s)).1 (
    inr (
      (λ b. unfold split str_eq in absurd (false≢true (IsBlocked-starts_wild b))),
      subst (Matches (levels (codes "telemetry/+/#"))) (sym (levels-telemetry s))
          (Matches-telemetry (levels s) (split-ne-nil slash s)),
    ))

any-forbids :
    (q : Request) (rs : List AclRule)
    → any (λ r. str_eq r.effect effect_deny) rs ≡ false
    → any (forbids q) rs ≡ false
any-forbids q [] h = refl
any-forbids q (r ∷ rs) h = ground (arith, any-forbids q rs)

abbrev after_first : List AclRule → List AclRule
after_first [] = []
after_first (r ∷ rs) = rs

permits-telemetry :
    (username s : Str)
    → permits
        (publish_as_plus username (codes "telemetry/" ++ s))
        (grant (codes "telemetry/%c/#") action_publish)
      ≡ true
unfolding allows_action resolved_filter
permits-telemetry username s = ground (arith, match_topic-telemetry s)

-- A client that is called "+" may publish to every topic under "telemetry/", another device's
-- included, under the shipped rules for devices where no custom rule is given.
pub plus_publishes :
    (username s : Str)
    → is_allowed
        (evaluate (publish_as_plus username (codes "telemetry/" ++ s)) (device_default ∷ []) [])
      ≡ true
plus_publishes username s =
    let q = publish_as_plus username (codes "telemetry/" ++ s) in
    let rs = rules_of (device_default ∷ []) ++ [] in
    let granted : any (permits q) rs ≡ true =
      λ i. permits-telemetry username s i || any (permits q) (after_first rs) in
    let not_denied : any (forbids q) rs ≡ false = any-forbids q rs (unfold str_eq in refl) in
    evaluate_outcome q (device_default ∷ []) [] ∙ (λ i. granted i && not (not_denied i))
