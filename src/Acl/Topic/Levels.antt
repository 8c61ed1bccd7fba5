-- ===== src/Acl/Topic/Levels.antt =====
-- match.go: what a filter matches, level by level, with no loop in it; and that MatchTopic
-- decides it.
use keel_mqtt_gateway.Prelude.{
  ◌≡◌, refl, sym, subst, ◌≢◌, ◌↔◌, ◌⊎◌, inl, inr, true, false, ◌||◌, List, [], ◌∷◌, Str, str_eq,
  str_eq_iff, has_prefix, split, split-ne-nil, is_nil, Bool-cases, arith,
}
use keel_mqtt_gateway.Acl.Topic.{
  slash, hash, plus, dollar, dollar_blocked, match_levels, match_topic,
}

-- "+" stands for one level, "#" as the last level for all that remain, and any other level for
-- itself.
pub data Matches : List Str → List Str → Type 0 where
  done : Matches [] []
  rest : (ts : List Str) → Matches (hash ∷ []) ts
  any_level : {fs ts : List Str} (t : Str) → Matches fs ts → Matches (plus ∷ fs) (t ∷ ts)
  level : {fs ts : List Str} (t : Str) → t ≢ hash → Matches fs ts → Matches (t ∷ fs) (t ∷ ts)

-- A filter that starts with a wildcard is kept away from a topic that starts with $, unless both
-- start with the same level.
pub data IsBlocked : List Str → List Str → Type 0 where
  blocked :
      (f t : Str) (fs ts : List Str)
      → has_prefix t dollar ≡ true
      → f ≢ t
      → (f ≡ hash) ⊎ (f ≡ plus)
      → IsBlocked (f ∷ fs) (t ∷ ts)

rest_only :
    (f : Str) (fs ts : List Str) → str_eq f hash ≡ true → is_nil fs ≡ true → Matches (f ∷ fs) ts
rest_only f [] ts e n = subst (λ x. Matches (x ∷ []) ts) (sym ((str_eq_iff f hash).0 e)) (rest ts)
rest_only f (g ∷ gs) ts e n = cc

one_level :
    (f t : Str) (fs ts : List Str)
    → str_eq f hash ≡ false
    → (str_eq f plus || str_eq f t) ≡ true
    → Matches fs ts
    → Matches (f ∷ fs) (t ∷ ts)
one_level f t fs ts h e m = elim (Bool-cases (str_eq f plus)) [
  | inl p ↦ subst (λ x. Matches (x ∷ fs) (t ∷ ts)) (sym ((str_eq_iff f plus).0 p)) (any_level t m)
  | inr p ↦
      subst (λ x. Matches (f ∷ fs) (x ∷ ts)) ((str_eq_iff f t).0 (ground arith))
        (level f (λ q. ground (arith, str_eq_iff f hash)) m)
]

match_levels-Matches : (fs ts : List Str) → match_levels fs ts ≡ true → Matches fs ts
unfolding match_levels
match_levels-Matches [] [] h = done
match_levels-Matches [] (t ∷ ts) h = cc
match_levels-Matches (f ∷ fs) [] h = rest_only f fs [] (ground arith) (ground arith)
match_levels-Matches (f ∷ fs) (t ∷ ts) h = elim (Bool-cases (str_eq f hash)) [
  | inl e ↦ rest_only f fs (t ∷ ts) e (ground arith)
  | inr e ↦ one_level f t fs ts e (ground arith) (match_levels-Matches fs ts (ground arith))
]

Matches-match_levels : {fs ts : List Str} → Matches fs ts → match_levels fs ts ≡ true
unfolding match_levels str_eq
Matches-match_levels done = refl
Matches-match_levels (rest []) = refl
Matches-match_levels (rest (t ∷ ts)) = refl
Matches-match_levels (any_level t m) = Matches-match_levels m
Matches-match_levels (level t ne m) =
    unfold match_levels in ground (arith, str_eq_iff t hash, str_eq_iff t t, Matches-match_levels m)

dollar_blocked-IsBlocked :
    (f : Str) (fs ts : List Str) → dollar_blocked (f ∷ fs) ts ≡ true → IsBlocked (f ∷ fs) ts
unfolding dollar_blocked
dollar_blocked-IsBlocked f fs [] h = cc
dollar_blocked-IsBlocked f fs (t ∷ ts) h =
    blocked f t fs ts (ground arith) (λ e. ground (arith, str_eq_iff f t))
      (ground (arith, str_eq_iff f hash, str_eq_iff f plus))

IsBlocked-dollar_blocked : {fs ts : List Str} → IsBlocked fs ts → dollar_blocked fs ts ≡ true
unfolding dollar_blocked
IsBlocked-dollar_blocked (blocked f t fs ts d n w) =
    ground (arith, str_eq_iff f t, str_eq_iff f hash, str_eq_iff f plus)

split-IsBlocked : (fs ts : List Str) → fs ≢ [] → dollar_blocked fs ts ≡ true → IsBlocked fs ts
split-IsBlocked [] ts n h = absurd (n refl)
split-IsBlocked (f ∷ fs) ts n h = dollar_blocked-IsBlocked f fs ts h

abbrev pub levels : Str → List Str
levels = split slash

-- MatchTopic answers true exactly when the filter is the topic itself, or when its levels match the
-- topic's and a leading wildcard does not face a first level that starts with $.
pub match_topic_iff :
    (filter topic : Str)
    → (match_topic filter topic ≡ true) ↔ (
        (filter ≡ topic)
        ⊎ ((¬ IsBlocked (levels filter) (levels topic)) × Matches (levels filter) (levels topic)))
unfolding match_topic
match_topic_iff filter topic = (forward, backward)
  where
    apart :
        IsBlocked (levels filter) (levels topic)
        → dollar_blocked (levels filter) (levels topic) ≡ true
    apart = IsBlocked-dollar_blocked

    forward :
        match_topic filter topic ≡ true
        → (filter ≡ topic)
          ⊎ ((¬ IsBlocked (levels filter) (levels topic)) × Matches (levels filter) (levels topic))
    forward h = elim (Bool-cases (str_eq filter topic)) [
      | inl e ↦ inl ((str_eq_iff filter topic).0 e)
      | inr e ↦ inr (
        λ b. ground (arith, apart b),
        match_levels-Matches (levels filter) (levels topic) (ground arith),
      )
    ]

    backward :
        (filter ≡ topic)
          ⊎ ((¬ IsBlocked (levels filter) (levels topic)) × Matches (levels filter) (levels topic))
        → match_topic filter topic ≡ true
    backward (inl e) = ground (arith, str_eq_iff filter topic)
    backward (inr (n, m)) = elim (Bool-cases (dollar_blocked (levels filter) (levels topic))) [
      | inl b ↦
          absurd (n (split-IsBlocked (levels filter) (levels topic) (split-ne-nil slash filter) b))
      | inr b ↦ ground (arith, Matches-match_levels m)
    ]
