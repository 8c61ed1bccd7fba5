-- ===== src/Acl/Evaluate/Explain.antt =====
-- evaluate.go: the rule that a decision names.
use mathlib.Core.List.{Mem, mem-cons_self, mem-cons_of_mem}
use keel_mqtt_gateway.Prelude.{
  ℕ, ◌≤◌, ◌≡◌, refl, subst, ◌⊎◌, inl, inr, ◌&&◌, ◌++◌, Bool, true, false, Option, none, some, List,
  [], ◌∷◌, All, Bool-cases, arith,
}
use keel_mqtt_gateway.Acl.Topic.{specificity}
use keel_mqtt_gateway.Acl.Model.{effect_allow, effect_deny, AclRule, Role}
use keel_mqtt_gateway.Acl.Evaluate.{
  Request, Best, Decision, nothing_yet, exceeds, improve, conclude, evaluate,
}
use keel_mqtt_gateway.Acl.Evaluate.Outcome.{
  forbids, permits, rules_of, fold_best, evaluate-fold_best,
}

abbrev spec : AclRule → ℕ
spec r = specificity r.topic_filter

abbrev found : AclRule → Best
found r = record { rule = some r; score = some (spec r) }

-- The search ends at the rule it began with, or at a better one from the list.
abbrev NoneBeats : (AclRule → Bool) → List AclRule → Option ℕ → Type 0
NoneBeats p rs s = All (λ r. p r ≡ true → exceeds (spec r) s ≡ false) rs

-- A rule of the list passes the test, and no other that does is more specific.
pub record IsBest (p : AclRule → Bool) (rs : List AclRule) (r : AclRule) : Type 0 where
  pub member : Mem r rs
  pub passes : p r ≡ true
  pub most_specific : All (λ x. p x ≡ true → spec x ≤ spec r) rs

abbrev Improves : (AclRule → Bool) → List AclRule → Best → Best → Type 0
Improves p rs b c =
    ((c ≡ b) × NoneBeats p rs b.score)
    ⊎ ((r : AclRule) × (c ≡ found r) × (exceeds (spec r) b.score ≡ true) × IsBest p rs r)

NoneBeats-le :
    (p : AclRule → Bool) (rs : List AclRule) (s : ℕ)
    → NoneBeats p rs (some s)
    → All (λ x. p x ≡ true → spec x ≤ s) rs
NoneBeats-le p [] s h = tt
NoneBeats-le p (r ∷ rs) s h = (λ e. ground (arith, h.0 e), NoneBeats-le p rs s h.1)

-- The rule is taken and the search goes on from it.
Improves-taken :
    (p : AclRule → Bool) (r : AclRule) (rs : List AclRule) (b c : Best)
    → p r ≡ true
    → exceeds (spec r) b.score ≡ true
    → Improves p rs (found r) c
    → Improves p (r ∷ rs) b c
Improves-taken p r rs b c hp he (inl (e, n)) = inr (
  r,
  e,
  he,
  record {
    member = mem-cons_self;
    passes = hp;
    most_specific = (λ _. omega arith, NoneBeats-le p rs (spec r) n);
  },
)
Improves-taken p r rs b c hp he (inr (x, e, hx, best)) = inr (
  x,
  e,
  beats b.score he,
  record {
    member = mem-cons_of_mem r best.member;
    passes = best.passes;
    most_specific = (λ _. ground arith, best.most_specific);
  },
)
  where
    beats : (s : Option ℕ) → exceeds (spec r) s ≡ true → exceeds (spec x) s ≡ true
    beats none h = refl
    beats (some s) h = ground arith

-- The rule is passed over.
Improves-skipped :
    (p : AclRule → Bool) (r : AclRule) (rs : List AclRule) (b c : Best)
    → (p r ≡ true → exceeds (spec r) b.score ≡ false)
    → Improves p rs b c
    → Improves p (r ∷ rs) b c
Improves-skipped p r rs b c h (inl (e, n)) = inl (e, (h, n))
Improves-skipped p r rs b c h (inr (x, e, hx, best)) = inr (
  x,
  e,
  hx,
  record {
    member = mem-cons_of_mem r best.member;
    passes = best.passes;
    most_specific = (λ hp. below b.score (h hp) hx, best.most_specific);
  },
)
  where
    below :
        (s : Option ℕ) → exceeds (spec r) s ≡ false → exceeds (spec x) s ≡ true → spec r ≤ spec x
    below none h k = cc
    below (some s) h k = ground arith

fold_best_taken :
    (p : AclRule → Bool) (r : AclRule) (rs : List AclRule) (b : Best)
    → p r ≡ true
    → exceeds (spec r) b.score ≡ true
    → fold_best p rs (found r) ≡ fold_best p (r ∷ rs) b
unfolding fold_best improve
fold_best_taken p r rs b hp he = rw (hp, he)

fold_best_skipped :
    (p : AclRule → Bool) (r : AclRule) (rs : List AclRule) (b : Best)
    → (p r && exceeds (spec r) b.score) ≡ false
    → fold_best p rs b ≡ fold_best p (r ∷ rs) b
unfolding fold_best improve
fold_best_skipped p r rs b h = ground arith

fold_best-Improves :
    (p : AclRule → Bool) (rs : List AclRule) (b : Best) → Improves p rs b (fold_best p rs b)
fold_best-Improves p [] b = unfold fold_best in inl (refl, tt)
fold_best-Improves p (r ∷ rs) b =
    let after = fold_best-Improves p rs (found r) in
    let kept = fold_best-Improves p rs b in
    elim (Bool-cases (p r && exceeds (spec r) b.score)) [
      | inl h ↦
          let hp : p r ≡ true = ground arith in
          let he : exceeds (spec r) b.score ≡ true = ground arith in
          subst (Improves p (r ∷ rs) b) (fold_best_taken p r rs b hp he)
            (Improves-taken p r rs b _ hp he after)
      | inr h ↦
          subst (Improves p (r ∷ rs) b) (fold_best_skipped p r rs b h)
            (Improves-skipped p r rs b _ (λ hp. ground arith) kept)
    ]

-- From the start, the search ends with no rule when none passes, and else with a best one.
search_result :
    (p : AclRule → Bool) (rs : List AclRule)
    → (((fold_best p rs nothing_yet).rule ≡ none) × All (λ r. p r ≡ false) rs)
      ⊎ ((r : AclRule) × ((fold_best p rs nothing_yet).rule ≡ some r) × IsBest p rs r)
search_result p rs = elim (fold_best-Improves p rs nothing_yet) [
  | inl (e, n) ↦ inl (rw e, none_pass rs n)
  | inr (r, e, _, best) ↦ inr (r, rw e, best)
]
  where
    none_pass : (xs : List AclRule) → NoneBeats p xs none → All (λ r. p r ≡ false) xs
    none_pass [] h = tt
    none_pass (x ∷ xs) h = (ground (arith, h.0), none_pass xs h.1)

-- What a decision says of the rules it was made from.
pub data IsExplained (q : Request) (rs : List AclRule) : Decision → Type 0 where
  denied :
      (r : AclRule)
      → IsBest (forbids q) rs r
      → IsExplained q rs (record { effect = effect_deny; rule = some r })
  allowed :
      (r : AclRule)
      → All (λ x. forbids q x ≡ false) rs
      → IsBest (permits q) rs r
      → IsExplained q rs (record { effect = effect_allow; rule = some r })
  fail_closed :
      All (λ x. forbids q x ≡ false) rs
      → All (λ x. permits q x ≡ false) rs
      → IsExplained q rs (record { effect = effect_deny; rule = none })

-- A decision names a rule of its own effect that applies to the request and is as specific as any
-- such rule; it allows only where no rule that applies denies, and it names no rule only where none
-- that applies denies or allows.
pub evaluate-IsExplained :
    (q : Request) (roles : List Role) (custom : List AclRule)
    → IsExplained q (rules_of roles ++ custom) (evaluate q roles custom)
unfolding conclude
evaluate-IsExplained q roles custom =
    rw (evaluate-fold_best q roles custom)
      (elim (search_result (forbids q) (rules_of roles ++ custom)) [
        | inr (d, e, best) ↦ rw (e, conclude) (denied d best)
        | inl (e, n) ↦ elim (search_result (permits q) (rules_of roles ++ custom)) [
          | inr (a, f, best) ↦ rw (e, f, conclude) (allowed a n best)
          | inl (f, m) ↦ rw (e, f, conclude) (fail_closed n m)
        ]
      ])
