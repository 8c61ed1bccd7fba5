-- ===== src/Routing/Shared/Changes.antt =====
-- router.go: each change of the table keeps the owners of shared filters in step with it.
use keel_mqtt_gateway.Prelude.{
  ◌≡◌, refl, ◌∙◌, inl, inr, true, not, ◌&&◌, ◌||◌, some, List, [], ◌∷◌, Str, str_eq, str_eq_iff,
  All, Bool-cases, arith, subst,
}
use keel_mqtt_gateway.Acl.Topic.{shared_filter}
use keel_mqtt_gateway.Routing.Keys.{
  key_sep, Base64, shared_owner_key, ownership_key, ownership_key_parts,
}
use keel_mqtt_gateway.Routing.Keys.Roundtrip.{IsFree}
use keel_mqtt_gateway.Routing.Table.{add_local, remove_local}
use keel_mqtt_gateway.Routing.Table.Members.{has, has-add_local, has-remove_local}
use keel_mqtt_gateway.Routing.Shared.{
  TopicsIndex, underlying_of, SharedOwners, add_owner, scan_owner, remove_owner, Router,
  add_local_locked, remove_local_locked, remove_topics_locked, scan_key,
}
use keel_mqtt_gateway.Routing.Shared.Sets.{owns, IsIndexed}
use keel_mqtt_gateway.Routing.Shared.Mirrors.{
  acts, or_now, and_not, if_shared-IsChange, add_owner-IsChange, scan_owner-IsChange,
  remove_owner-IsChange, IsCanonical, acts_lem,
}

module _ (index : TopicsIndex) (base64 : Base64) where
  -- The set of a shared filter has the owner exactly where the table has its ownership key.
  abbrev pub IsMirrored : Router index → Type 0
  IsMirrored r =
      (n c f u : Str)
      → IsFree key_sep n
      → IsFree 0 c
      → underlying_of (shared_filter f) ≡ some u
      → owns index (shared_owner_key n c) f r.shared ≡ has (ownership_key base64 c f) n r.by_node

  -- With this, the indexes hold the owners, and the table only keys that OwnershipKey makes.
  abbrev pub IsMirror : Router index → Type 0
  IsMirror r =
      IsIndexed index r.shared
      × IsMirrored r
      × ((t n : Str) → has t n r.by_node ≡ true → IsCanonical base64 t)

  added-IsMirror :
      (s' : SharedOwners index) (t n' : Str) (r : Router index)
      → IsFree key_sep n'
      → IsCanonical base64 t
      → IsMirror r
      → IsIndexed index s'
        × ((o f : Str)
            → owns index o f s'
              ≡ (acts n' (ownership_key_parts base64 t) o f || owns index o f r.shared))
      → IsMirror (record { by_node = add_local t n' r.by_node; shared = s' })
  added-IsMirror s' t n' r h canon (ix, mi, ca) (ix', ow) = (
    ix',
    (λ n c f u free client under.
        ow (shared_owner_key n c) f
        ∙ ground (
          arith,
          acts_lem base64 n c f u free client under n' t (ownership_key_parts base64 t) refl h
              canon,
          mi n c f u free client under,
          has-add_local (ownership_key base64 c f) n t n' r.by_node,
        )),
    λ t' n e. elim (Bool-cases (str_eq t t')) [
      | inl k ↦ subst (IsCanonical base64) ((str_eq_iff t t').0 k) canon
      | inr k ↦ ca t' n (ground (arith, e, has-add_local t' n t n' r.by_node))
    ],
  )

  removed-IsMirror :
      (s' : SharedOwners index) (t n' : Str) (r : Router index)
      → IsFree key_sep n'
      → IsCanonical base64 t
      → IsMirror r
      → IsIndexed index s'
        × ((o f : Str)
            → owns index o f s'
              ≡ (not (acts n' (ownership_key_parts base64 t) o f) && owns index o f r.shared))
      → IsMirror (record { by_node = remove_local t n' r.by_node; shared = s' })
  removed-IsMirror s' t n' r h canon (ix, mi, ca) (ix', ow) = (
    ix',
    (λ n c f u free client under.
        ow (shared_owner_key n c) f
        ∙ ground (
          arith,
          acts_lem base64 n c f u free client under n' t (ownership_key_parts base64 t) refl h
              canon,
          mi n c f u free client under,
          has-remove_local (ownership_key base64 c f) n t n' r.by_node,
        )),
    λ t' n e. ca t' n (ground (arith, e, has-remove_local t' n t n' r.by_node)),
  )

  pub add_local_locked-IsMirror :
      (t n' : Str) (r : Router index)
      → IsFree key_sep n'
      → IsCanonical base64 t
      → IsMirror r
      → IsMirror (add_local_locked index base64 t n' r)
  unfolding add_local_locked
  add_local_locked-IsMirror t n' r h canon k = added-IsMirror _ t n' r h canon k (
      if_shared-IsChange index (or_now index) (λ b. refl) (add_owner index)
        (add_owner-IsChange index) n' (ownership_key_parts base64 t) r.shared k.0)

  pub scan_key-IsMirror :
      (t n' : Str) (r : Router index)
      → IsFree key_sep n'
      → IsCanonical base64 t
      → IsMirror r
      → IsMirror (scan_key index base64 (some (t, n')) r)
  scan_key-IsMirror t n' r h canon k = added-IsMirror _ t n' r h canon k (
      if_shared-IsChange index (or_now index) (λ b. refl) (scan_owner index)
        (scan_owner-IsChange index) n' (ownership_key_parts base64 t) r.shared k.0)

  pub remove_local_locked-IsMirror :
      (t n' : Str) (r : Router index)
      → IsFree key_sep n'
      → IsCanonical base64 t
      → IsMirror r
      → IsMirror (remove_local_locked index base64 t n' r)
  unfolding remove_local_locked
  remove_local_locked-IsMirror t n' r h canon k = removed-IsMirror _ t n' r h canon k (
      if_shared-IsChange index (and_not index) (λ b. refl) (remove_owner index)
        (remove_owner-IsChange index) n' (ownership_key_parts base64 t) r.shared k.0)

  pub remove_topics_locked-IsMirror :
      (topics : List Str) (n' : Str) (r : Router index)
      → IsFree key_sep n'
      → All (IsCanonical base64) topics
      → IsMirror r
      → IsMirror (remove_topics_locked index base64 topics n' r)
  unfolding remove_topics_locked
  remove_topics_locked-IsMirror [] n' r h a k = k
  remove_topics_locked-IsMirror (t ∷ topics) n' r h a k =
      remove_topics_locked-IsMirror topics n' _ h a.1 (remove_local_locked-IsMirror t n' r h a.0 k)
