-- ===== src/Broker/Limits/Independence.antt =====
-- ratelimit.go: no key has a part in the limit of another.
use keel_mqtt_gateway.Prelude.{
  ℕ, ◌-◌, ltb, ◌≡◌, refl, sym, ap, ap₂, subst, ◌∙◌, inl, inr, Bool, true, false, Option, none, some,
  List, [], ◌∷◌, Str, str_eq, str_eq_iff, str_eq_refl, lookup, insert, IsMap, insert-IsMap,
  lookup-insert, ltb, if◌then◌else◌, if_cases, Bool-cases, arith,
}
use keel_mqtt_gateway.Broker.Limits.{RateLimiterEntry, Entries, bucket_of, allow, sweep}

-- A call of the limiter, with its time, or a sweep.
pub data Event : Type 0 where
  asked : ℕ → Str → Event
  swept : ℕ → Event

-- The calls for one key, and the sweeps.
unfoldable pub only : Str → List Event → List Event
unfolding str_eq
only k [] = []
only k (asked now j ∷ es) = let rest = only k es in if str_eq j k then asked now j ∷ rest else rest
only k (swept now ∷ es) = swept now ∷ only k es

module _ (Bucket : Type 0) (new_bucket : Bucket) (take_token : ℕ → Bucket → Bool × Bucket)
    (ttl : ℕ) where
  -- The answers to the calls for a key, in order, and the entries after all events.
  unfoldable pub answers : Str → List Event → Entries Bucket new_bucket take_token → List Bool
  unfolding allow sweep str_eq
  answers k [] entries = []
  answers k (asked now j ∷ es) entries =
      let (ok, after) = allow Bucket new_bucket take_token now j entries in
      let rest = answers k es after in if str_eq j k then ok ∷ rest else rest
  answers k (swept now ∷ es) entries =
      answers k es (sweep Bucket new_bucket take_token ttl now entries)

  -- What a sweep leaves of an entry.
  abbrev unless_old :
      ℕ
      → Option (RateLimiterEntry Bucket new_bucket take_token)
      → Option (RateLimiterEntry Bucket new_bucket take_token)
  unless_old now none = none
  unless_old now (some e) = if ltb ttl (now - e.last_seen) then none else some e

  lookup-sweep :
      (k : Str) (now : ℕ) (entries : Entries Bucket new_bucket take_token)
      → IsMap entries
      → lookup k (sweep Bucket new_bucket take_token ttl now entries)
        ≡ unless_old now (lookup k entries)
  unfolding sweep lookup
  lookup-sweep k now [] u = refl
  lookup-sweep k now ((j, e) ∷ entries) u =
      let ih = lookup-sweep k now entries u.1 in
      elim (Bool-cases (str_eq j k)) [
        | inl h ↦
            let absent : lookup k entries ≡ none =
              subst (λ x. lookup x entries ≡ none) ((str_eq_iff j k).0 h) u.0 in
            ground (arith, ih)
        | inr h ↦ ground (arith, ih)
      ]

  sweep-IsMap :
      (now : ℕ) (entries : Entries Bucket new_bucket take_token)
      → IsMap entries
      → IsMap (sweep Bucket new_bucket take_token ttl now entries)
  unfolding sweep
  sweep-IsMap now [] u = tt
  sweep-IsMap now ((j, e) ∷ entries) u =
      let rest = sweep Bucket new_bucket take_token ttl now entries in
      if_cases IsMap (ltb ttl (now - e.last_seen)) rest ((j, e) ∷ rest)
        (λ _. sweep-IsMap now entries u.1)
        (λ _.
          (lookup-sweep j now entries u.1 ∙ ap (unless_old now) u.0, sweep-IsMap now entries u.1))

  lookup-allow :
      (k j : Str) (now : ℕ) (entries : Entries Bucket new_bucket take_token)
      → str_eq j k ≡ false
      → lookup k (allow Bucket new_bucket take_token now j entries).1 ≡ lookup k entries
  unfolding allow
  lookup-allow k j now entries h = ground (
    arith,
    lookup-insert j k
        (record {
          limiter = (take_token now (bucket_of Bucket new_bucket take_token (lookup j entries))).1;
          last_seen = now;
        })
        entries,
  )

  allow-IsMap :
      (j : Str) (now : ℕ) (entries : Entries Bucket new_bucket take_token)
      → IsMap entries
      → IsMap (allow Bucket new_bucket take_token now j entries).1
  unfolding allow
  allow-IsMap j now entries u = insert-IsMap j _ entries u

  abbrev entry_at :
      ℕ
      → Option (RateLimiterEntry Bucket new_bucket take_token)
      → RateLimiterEntry Bucket new_bucket take_token
  entry_at now o = record {
    limiter = (take_token now (bucket_of Bucket new_bucket take_token o)).1;
    last_seen = now;
  }

  lookup-own :
      (k : Str) (v : RateLimiterEntry Bucket new_bucket take_token)
      (m : Entries Bucket new_bucket take_token)
      → lookup k (insert k v m) ≡ some v
  lookup-own k v m = ground (arith, lookup-insert k k v m, str_eq_refl k)

  -- The answer and the new entry go by the entry of the key alone.
  allow-entry :
      (j : Str) (now : ℕ) (e e' : Entries Bucket new_bucket take_token)
      → lookup j e ≡ lookup j e'
      → ((allow Bucket new_bucket take_token now j e).0
          ≡ (allow Bucket new_bucket take_token now j e').0)
        × (lookup j (allow Bucket new_bucket take_token now j e).1
            ≡ lookup j (allow Bucket new_bucket take_token now j e').1)
  unfolding allow
  allow-entry j now e e' h = (
    ap (λ o. (take_token now (bucket_of Bucket new_bucket take_token o)).0) h,
    lookup-own j (entry_at now (lookup j e)) e
        ∙ ap (λ o. some (entry_at now o)) h
        ∙ sym (lookup-own j (entry_at now (lookup j e')) e'),
  )

  same_at :
      (k j : Str) (now : ℕ) (e e' : Entries Bucket new_bucket take_token)
      → j ≡ k
      → lookup j (allow Bucket new_bucket take_token now j e).1
        ≡ lookup j (allow Bucket new_bucket take_token now j e').1
      → lookup k (allow Bucket new_bucket take_token now j e).1
        ≡ lookup k (allow Bucket new_bucket take_token now j e').1
  same_at k j now e e' q h =
      subst
        (λ x.
          lookup x (allow Bucket new_bucket take_token now j e).1
          ≡ lookup x (allow Bucket new_bucket take_token now j e').1)
        q h

  answers-own :
      (k j : Str) (now : ℕ) (es : List Event) (e : Entries Bucket new_bucket take_token)
      → str_eq j k ≡ true
      → answers k (asked now j ∷ es) e
        ≡ (allow Bucket new_bucket take_token now j e).0
          ∷ answers k es (allow Bucket new_bucket take_token now j e).1
  unfolding answers
  answers-own k j now es e y = rw y refl

  only-own :
      (k j : Str) (now : ℕ) (es : List Event)
      → str_eq j k ≡ true
      → only k (asked now j ∷ es) ≡ asked now j ∷ only k es
  unfolding only
  only-own k j now es y = rw y refl

  -- Through any calls and sweeps, from entries that hold each key once and agree on a key, the
  -- answers for that key are those that it would get without the calls for other keys, whatever the
  -- bucket does.
  pub answers-only :
      (k : Str) (es : List Event) (e e' : Entries Bucket new_bucket take_token)
      → IsMap e
      → IsMap e'
      → lookup k e ≡ lookup k e'
      → answers k es e ≡ answers k (only k es) e'
  unfolding answers only
  answers-only k [] e e' u v h = refl
  answers-only k (swept now ∷ es) e e' u v h =
      answers-only k es _ _ (sweep-IsMap now e u) (sweep-IsMap now e' v)
        (lookup-sweep k now e u ∙ ap (unless_old now) h ∙ sym (lookup-sweep k now e' v))
  answers-only k (asked now j ∷ es) e e' u v h = elim (Bool-cases (str_eq j k)) [
    | inr n ↦ rw n (
        answers-only k es (allow Bucket new_bucket take_token now j e).1 e' (allow-IsMap j now e u)
          v (lookup-allow k j now e n ∙ h))
    | inl y ↦
        let back = sym ((str_eq_iff j k).0 y) in
        let h' = subst (λ x. lookup x e ≡ lookup x e') back h in
        let (ok, entry) = allow-entry j now e e' h' in
        let later =
          answers-only k es (allow Bucket new_bucket take_token now j e).1
            (allow Bucket new_bucket take_token now j e').1 (allow-IsMap j now e u)
            (allow-IsMap j now e' v) (same_at k j now e e' ((str_eq_iff j k).0 y) entry) in
        answers-own k j now es e y
        ∙ ap₂ (λ x xs. x ∷ xs) ok later
        ∙ sym (answers-own k j now (only k es) e' y)
        ∙ ap (λ xs. answers k xs e') (sym (only-own k j now es y))
  ]
