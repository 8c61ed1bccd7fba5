-- ===== src/Broker/Topics/Publishes.antt =====
-- hooks.go: to which topics a device may publish.
use keel_mqtt_gateway.Prelude.{
  ℕ, zero, suc, if◌then◌else◌, ◌≤◌, ◌≡◌, refl, sym, ap, subst, ◌≢◌, ◌↔◌, inl, inr, Bool, true,
  false, Option, none, some, [], ◌∷◌, ◌++◌, Str, str_eq, has_prefix, length, length-append, ◌==◌,
  Bool-cases, Option-cases, arith,
}
use keel_mqtt_gateway.Acl.Topic.{slash}
use keel_mqtt_gateway.Routing.Keys.{cut_first, put_back, drop}
use keel_mqtt_gateway.Routing.Keys.Roundtrip.{IsFree, cut_first_join}
use keel_mqtt_gateway.Broker.Device.{DeviceInfo}
use keel_mqtt_gateway.Broker.Topics.{
  goes_on, is_allowed_direct, via_slash, via_parts, named_sub, allowed_publish_within,
  is_allowed_publish,
}

pub drop-append : (a s : Str) → drop (length a) (a ++ s) ≡ s
drop-append [] s = refl
drop-append (x ∷ a) s = drop-append a s

-- The test of the source is that of a prefix that ends with the slash.
pub goes_on_lem : (part rest : Str) → goes_on part rest ≡ has_prefix rest (part ++ slash ∷ [])
unfolding goes_on has_prefix str_eq
goes_on_lem [] [] = refl
goes_on_lem [] (x ∷ rest) = ground arith
goes_on_lem (p ∷ part) [] = ground arith
goes_on_lem (p ∷ part) (x ∷ rest) = ground (arith, goes_on_lem part rest)

pub has_prefix-append : (a s : Str) → has_prefix (a ++ s) a ≡ true
unfolding has_prefix
has_prefix-append [] s = refl
has_prefix-append (x ∷ a) s = ground (arith, has_prefix-append a s)

pub has_prefix-drop : (s p : Str) → has_prefix s p ≡ true → s ≡ p ++ drop (length p) s
unfolding has_prefix
has_prefix-drop s [] h = refl
has_prefix-drop [] (c ∷ p) h = cc
has_prefix-drop (x ∷ s) (c ∷ p) h = ground (arith, has_prefix-drop s p)

pub cut_first-some :
    (c : ℕ) (s a b : Str) → cut_first c s ≡ some (a, b) → (s ≡ a ++ c ∷ b) × IsFree c a
unfolding cut_first
cut_first-some c [] a b e = cc
cut_first-some c (x ∷ s) a b e = later (cut_first c s) (λ a' b'. cut_first-some c s a' b') e
  where
    later :
        (o : Option (Str × Str))
        → ((a' b' : Str) → o ≡ some (a', b') → (s ≡ a' ++ c ∷ b') × IsFree c a')
        → (if x == c then some ([], s) else put_back x o) ≡ some (a, b)
        → (x ∷ s ≡ a ++ c ∷ b) × IsFree c a
    later none ih q = ground arith
    later (some (a', b')) ih q = ground (arith, ih a' b')

-- The delegation of a topic by gateways: none, or "via/", the UUID of a sub-device, and a topic.
pub data Delegates (is_uuid : Str → Bool) : Str → Str → Type 0 where
  direct : (t : Str) → has_prefix t via_slash ≡ false → Delegates is_uuid t t
  via :
      (sub inner t : Str)
      → sub ≢ []
      → IsFree slash sub
      → is_uuid sub ≡ true
      → Delegates is_uuid inner t
      → Delegates is_uuid (via_slash ++ sub ++ slash ∷ inner) t

via_parts-some :
    (topic sub inner : Str)
    → has_prefix topic via_slash ≡ true
    → via_parts topic ≡ some (sub, inner)
    → (topic ≡ via_slash ++ sub ++ slash ∷ inner) × (sub ≢ []) × IsFree slash sub
unfolding via_parts
via_parts-some topic sub inner p e =
    let rest = drop (length via_slash) topic in
    cut (cut_first slash rest) (λ a b. cut_first-some slash rest a b) e
  where
    cut :
        (o : Option (Str × Str))
        → ((a b : Str)
            → o ≡ some (a, b)
            → (drop (length via_slash) topic ≡ a ++ slash ∷ b) × IsFree slash a)
        → named_sub o ≡ some (sub, inner)
        → (topic ≡ via_slash ++ sub ++ slash ∷ inner) × (sub ≢ []) × IsFree slash sub
    cut none f q = cc
    cut (some ([], b)) f q = cc
    cut (some (c ∷ a, b)) f q =
        let g = f (c ∷ a) b refl in let h = has_prefix-drop topic via_slash p in ground arith

via_parts_join :
    (sub inner : Str)
    → sub ≢ []
    → IsFree slash sub
    → via_parts (via_slash ++ sub ++ slash ∷ inner) ≡ some (sub, inner)
unfolding via_parts
via_parts_join [] inner n f = absurd (n refl)
via_parts_join (c ∷ sub) inner n f = ap named_sub (cut_first_join slash (c ∷ sub) inner f)

module _ (is_uuid : Str → Bool) (info : DeviceInfo) where
  within-Delegates :
      (n : ℕ) (topic : Str)
      → allowed_publish_within is_uuid n topic info ≡ true
      → (t : Str) × Delegates is_uuid topic t × (is_allowed_direct t info ≡ true)
  unfolding allowed_publish_within
  within-Delegates zero topic h = cc
  within-Delegates (suc n) topic h = elim (Bool-cases (has_prefix topic via_slash)) [
    | inr p ↦ (topic, direct topic p, ground arith)
    | inl p ↦ elim (Option-cases (via_parts topic)) [
      | inl e ↦ absurd (ground arith)
      | inr ((sub, inner), e) ↦ elim (Bool-cases (is_uuid sub)) [
        | inr u ↦ absurd (ground arith)
        | inl u ↦
            let (q, s, f) = via_parts-some topic sub inner p e in
            let (t, d, a) = within-Delegates n inner (ground arith) in
            (t, subst (λ x. Delegates is_uuid x t) (sym q) (via sub inner t s f u d), a)
      ]
    ]
  ]

  Delegates-within :
      (n : ℕ) (topic t : Str)
      → Delegates is_uuid topic t
      → length topic ≤ n
      → is_allowed_direct t info ≡ true
      → allowed_publish_within is_uuid n topic info ≡ true
  unfolding allowed_publish_within
  Delegates-within zero _ _ (direct [] p) l a = unfold is_allowed_direct in a
  Delegates-within zero _ _ (direct (c ∷ t) p) l a = absurd (omega arith)
  Delegates-within (suc n) _ _ (direct t p) l a = ground arith
  Delegates-within zero _ _ (via sub inner t s f u d) l a = absurd (omega arith)
  Delegates-within (suc n) _ _ (via sub inner t s f u d) l a = ground (
    arith,
    via_parts_join sub inner s f,
    has_prefix-append via_slash (sub ++ slash ∷ inner),
    length-append sub (slash ∷ inner),
    Delegates-within n inner t d,
  )

  -- A device may publish to a topic exactly when the topic is some number of delegations, each
  -- "via/", the UUID of a sub-device and a slash, before a topic that does not start with "via/"
  -- and that the direct rules allow; the length of the topic is fuel enough.
  pub is_allowed_publish_iff :
      (topic : Str)
      → (is_allowed_publish is_uuid topic info ≡ true)
        ↔ ((t : Str) × Delegates is_uuid topic t × (is_allowed_direct t info ≡ true))
  unfolding is_allowed_publish
  is_allowed_publish_iff topic = (
    within-Delegates (length topic) topic,
    λ (t, d, a). Delegates-within (length topic) topic t d (omega arith) a,
  )
