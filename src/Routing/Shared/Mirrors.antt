-- ===== src/Routing/Shared/Mirrors.antt =====
-- router.go: the owners of shared filters say what the ownership keys of the table say.
use keel_mqtt_gateway.Prelude.{
  ◌≡◌, refl, sym, ap, ◌∙◌, ◌≢◌, Bool, true, false, not, ◌&&◌, ◌||◌, Option, none, some, [], ◌∷◌,
  Str, split_n, str_eq, str_eq_iff, arith,
}
use keel_mqtt_gateway.Acl.Topic.{shared_filter}
use keel_mqtt_gateway.Routing.Keys.{
  cut_first, key_sep, Base64, shared_owner_key, ownership_key, ownership_key_parts,
}
use keel_mqtt_gateway.Routing.Keys.Roundtrip.{IsFree, cut_first_join, ownership_key_roundtrip}
use keel_mqtt_gateway.Routing.Shared.{
  TopicsIndex, underlying_of, SharedOwners, add_owner, scan_owner, remove_owner, if_underlying,
  if_shared,
}
use keel_mqtt_gateway.Routing.Shared.Sets.{
  owns, IsIndexed, owns-add_owner, owns-scan_owner, add_owner-IsIndexed, scan_owner-IsIndexed,
}
use keel_mqtt_gateway.Routing.Shared.Removes.{owns-remove_owner, remove_owner-IsIndexed}

abbrev pub is_shared : Option Str → Bool
is_shared none = false
is_shared (some underlying) = true

-- Does a topic with these parts change whether the owner stands in the set of the filter?
abbrev pub acts : Str → Option (Str × Str) → Str → Str → Bool
acts node_id none o f = false
acts node_id (some (client_id, filter)) o f =
    is_shared (underlying_of (shared_filter filter))
    && (str_eq filter f && str_eq (shared_owner_key node_id client_id) o)

module _ (index : TopicsIndex) where
  -- A change that does this to the one owner does it through if_shared.
  abbrev pub IsChange :
      (Bool → Bool → Bool) → (Str → Str → Str → SharedOwners index → SharedOwners index) → Type 0
  IsChange after change =
      (f' u' o' : Str) (s : SharedOwners index)
      → underlying_of (shared_filter f') ≡ some u'
      → IsIndexed index s
      → IsIndexed index (change f' u' o' s)
        × ((o f : Str)
            → owns index o f (change f' u' o' s)
              ≡ after (str_eq f' f && str_eq o' o) (owns index o f s))

  module _ (after : Bool → Bool → Bool) (after-false : (b : Bool) → after false b ≡ b)
      (change : Str → Str → Str → SharedOwners index → SharedOwners index)
      (law : IsChange after change) where
    if_underlying-IsChange :
        (f' o' : Str) (u : Option Str) (s : SharedOwners index)
        → underlying_of (shared_filter f') ≡ u
        → IsIndexed index s
        → IsIndexed index (if_underlying index change f' o' u s)
          × ((o f : Str)
              → owns index o f (if_underlying index change f' o' u s)
                ≡ after (is_shared u && (str_eq f' f && str_eq o' o)) (owns index o f s))
    if_underlying-IsChange f' o' none s e h = (h, λ o f. sym (after-false _))
    if_underlying-IsChange f' o' (some u) s e h = law f' u o' s e h

    pub if_shared-IsChange :
        (n' : Str) (parts : Option (Str × Str)) (s : SharedOwners index)
        → IsIndexed index s
        → IsIndexed index (if_shared index change n' parts s)
          × ((o f : Str)
              → owns index o f (if_shared index change n' parts s)
                ≡ after (acts n' parts o f) (owns index o f s))
    if_shared-IsChange n' none s h = (h, λ o f. sym (after-false _))
    if_shared-IsChange n' (some (c, f')) s h =
        if_underlying-IsChange f' (shared_owner_key n' c) (underlying_of (shared_filter f')) s refl
          h

  abbrev pub or_now : Bool → Bool → Bool
  or_now b x = b || x

  abbrev pub and_not : Bool → Bool → Bool
  and_not b x = not b && x

  pub add_owner-IsChange : IsChange or_now (add_owner index)
  add_owner-IsChange f' u' o' s e h =
      (add_owner-IsIndexed index f' u' o' s e h, owns-add_owner index f' u' o' s e h)

  pub scan_owner-IsChange : IsChange or_now (scan_owner index)
  scan_owner-IsChange f' u' o' s e h =
      (scan_owner-IsIndexed index f' u' o' s e h, owns-scan_owner index f' u' o' s e h)

  pub remove_owner-IsChange : IsChange and_not (remove_owner index)
  remove_owner-IsChange f' u' o' s e h =
      (remove_owner-IsIndexed index f' u' o' s e h, owns-remove_owner index f' u' o' s e h)

-- Owner keys are the same exactly when their nodes and clients are.
str_eq-shared_owner_key :
    (n c n' c' : Str)
    → IsFree key_sep n
    → IsFree key_sep n'
    → str_eq (shared_owner_key n' c') (shared_owner_key n c) ≡ (str_eq n' n && str_eq c' c)
str_eq-shared_owner_key n c n' c' h h' =
    ground (arith, str_eq_iff n' n, str_eq_iff c' c, same, apart)
  where
    same : n' ≡ n → c' ≡ c → str_eq (shared_owner_key n' c') (shared_owner_key n c) ≡ true
    same e f = (str_eq_iff _ _).1 (λ i. shared_owner_key (e i) (f i))

    apart : str_eq (shared_owner_key n' c') (shared_owner_key n c) ≡ true → (n' ≡ n) × (c' ≡ c)
    apart e =
        let k = (str_eq_iff (shared_owner_key n' c') (shared_owner_key n c)).0 e in
        let p =
          sym (cut_first_join key_sep n' c' h')
          ∙ ap (cut_first key_sep) k
          ∙ cut_first_join key_sep n c h in
        ground (arith, p)

module _ (base64 : Base64) where
  -- The topic is no ownership key, or the one that OwnershipKey makes.
  abbrev pub IsCanonical : Str → Type 0
  IsCanonical t =
      (c f : Str) → ownership_key_parts base64 t ≡ some (c, f) → t ≡ ownership_key base64 c f

  pub ownership_key-IsCanonical :
      (c f : Str) → IsFree 0 c → f ≢ [] → IsCanonical (ownership_key base64 c f)
  ownership_key-IsCanonical c f client n c' f' e =
      from_parts (some (c', f')) (sym (ownership_key_roundtrip base64 c f client n) ∙ e)
    where
      key_of : Option (Str × Str) → Str
      key_of none = []
      key_of (some (c, f)) = ownership_key base64 c f

      from_parts : (o : Option (Str × Str)) → some (c, f) ≡ o → key_of (some (c, f)) ≡ key_of o
      from_parts o q = ap key_of q

  shared-nonempty : (f u : Str) → underlying_of (shared_filter f) ≡ some u → f ≢ []
  unfolding shared_filter split_n
  shared-nonempty [] u e = λ p. ground (arith, e)
  shared-nonempty (x ∷ f) u e = λ p. ground (arith, p)

  module _ (n c f u : Str) (free : IsFree key_sep n) (client : IsFree 0 c)
      (under : underlying_of (shared_filter f) ≡ some u) where
    key_parts : ownership_key_parts base64 (ownership_key base64 c f) ≡ some (c, f)
    key_parts = ownership_key_roundtrip base64 c f client (shared-nonempty f u under)

    read :
        (t : Str) (o : Option (Str × Str))
        → ownership_key_parts base64 t ≡ o
        → str_eq t (ownership_key base64 c f) ≡ true
        → o ≡ some (c, f)
    read t o e k =
        sym e
        ∙ ap (ownership_key_parts base64) ((str_eq_iff t (ownership_key base64 c f)).0 k)
        ∙ key_parts

    pub acts_lem :
        (n' t : Str) (o : Option (Str × Str))
        → ownership_key_parts base64 t ≡ o
        → IsFree key_sep n'
        → IsCanonical t
        → acts n' o (shared_owner_key n c) f ≡ (str_eq t (ownership_key base64 c f) && str_eq n' n)
    acts_lem n' t none e h canon =
        ground (arith, λ (k : str_eq t (ownership_key base64 c f) ≡ true). read t none e k)
    acts_lem n' t (some (c', f')) e h canon = ground (
      arith,
      str_eq-shared_owner_key n c n' c' free h,
      str_eq_iff c' c,
      str_eq_iff f' f,
      λ (k : str_eq t (ownership_key base64 c f) ≡ true). read t (some (c', f')) e k,
      λ (p : f' ≡ f). ap (λ g. is_shared (underlying_of (shared_filter g))) p ∙ ap is_shared under,
      λ (p : c' ≡ c) (q : f' ≡ f).
          (str_eq_iff t (ownership_key base64 c f)).1
            (canon c' f' e ∙ (λ i. ownership_key base64 (p i) (q i))),
    )
