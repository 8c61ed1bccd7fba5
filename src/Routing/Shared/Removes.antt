-- ===== src/Routing/Shared/Removes.antt =====
-- router.go, removeOfflineSharedOwnershipLocked: the owner is gone from the set and from the index.
use keel_mqtt_gateway.Prelude.{
  ◌≡◌, refl, sym, ap, ◌∙◌, true, false, not, ◌&&◌, Option, none, some, List, [], ◌∷◌, Str, str_eq,
  str_eq_iff, lookup, if◌then◌else◌, arith,
}
use keel_mqtt_gateway.Acl.Topic.{shared_filter}
use keel_mqtt_gateway.Routing.Table.{member}
use keel_mqtt_gateway.Routing.Table.Members.{member-set_remove}
use keel_mqtt_gateway.Routing.Shared.{
  TopicsIndex, owners_of, underlying_of, SharedOwners, index_of, store_owners, without_owner,
  remove_from_index, remove_owner,
}
use keel_mqtt_gateway.Routing.Shared.Sets.{
  owns, indexed, IsIndexed, apply_if, read-insert, read-delete, same-under,
}

module _ (index : TopicsIndex) where
  -- What stands for the filter after the owners that remain were stored.
  owns-store_owners :
      (f' : Str) (idx : index.I) (rest : Option (List Str)) (s : SharedOwners index) (o f : Str)
      → (rest ≡ none → owns index o f' s ≡ false)
      → owns index o f (store_owners index f' idx rest s)
        ≡ (if str_eq f' f then member o (owners_of rest) else owns index o f s)
  owns-store_owners f' idx none s o f h = ground (
    arith,
    h refl,
    λ (e : str_eq f' f ≡ true). ap (λ g. owns index o g s) ((str_eq_iff f' f).0 e),
  )
  owns-store_owners f' idx (some []) s o f h =
      ap (member o) (read-delete owners_of f' f s.offline_shared_owners)
      ∙ apply_if (member o) (str_eq f' f) [] (owners_of (lookup f s.offline_shared_owners))
  owns-store_owners f' idx (some (x ∷ rest)) s o f h =
      ap (member o) (read-insert owners_of f' f (x ∷ rest) s.offline_shared_owners)
      ∙ apply_if (member o) (str_eq f' f) (x ∷ rest) (owners_of (lookup f s.offline_shared_owners))

  indexed-store_owners :
      (f' : Str) (idx : index.I) (rest : Option (List Str)) (s : SharedOwners index) (o f u : Str)
      → (str_eq f' f ≡ true → index.holds o u idx ≡ member o (owners_of rest))
      → indexed index o f u (store_owners index f' idx rest s)
        ≡ (if str_eq f' f then member o (owners_of rest) else indexed index o f u s)
  indexed-store_owners f' idx none s o f u h =
      ap (index.holds o u) (read-insert (index_of index) f' f idx s.offline_shared)
      ∙ apply_if (index.holds o u) (str_eq f' f) idx _
      ∙ ground (arith, h)
  indexed-store_owners f' idx (some []) s o f u h =
      ap (index.holds o u) (read-delete (index_of index) f' f s.offline_shared)
      ∙ apply_if (index.holds o u) (str_eq f' f) index.new _
      ∙ ground (arith, index.holds-new o u)
  indexed-store_owners f' idx (some (x ∷ rest)) s o f u h =
      ap (index.holds o u) (read-insert (index_of index) f' f idx s.offline_shared)
      ∙ apply_if (index.holds o u) (str_eq f' f) idx _
      ∙ ground (arith, h)

  -- The set without the owner.
  member-without_owner :
      (o' o : Str) (owners : Option (List Str))
      → member o (owners_of (without_owner index o' owners))
        ≡ (not (str_eq o' o) && member o (owners_of owners))
  member-without_owner o' o none = ground arith
  member-without_owner o' o (some owners) = member-set_remove o' o owners

  without-none :
      (o' o : Str) (owners : Option (List Str))
      → without_owner index o' owners ≡ none
      → member o (owners_of owners) ≡ false
  without-none o' o none e = refl
  without-none o' o (some owners) e = ground arith

  module _ (f' u' o' : Str) (s : SharedOwners index)
      (e : underlying_of (shared_filter f') ≡ some u') (h : IsIndexed index s) where
    owns-from_index :
        (i : Option index.I)
        → lookup f' s.offline_shared ≡ i
        → (o f : Str)
        → owns index o f (remove_from_index index f' u' o' i s)
          ≡ (not (str_eq f' f && str_eq o' o) && owns index o f s)
    owns-from_index none q o f = ground (
      arith,
      sym (h o f' u' e) ∙ ap (λ j. index.holds o u' (index_of index j)) q ∙ index.holds-new o u',
      λ (k : str_eq f' f ≡ true). ap (λ g. owns index o g s) ((str_eq_iff f' f).0 k),
    )
    owns-from_index (some idx) q o f =
        let owners = lookup f' s.offline_shared_owners in
        owns-store_owners f' (index.unsubscribe u' o' idx) (without_owner index o' owners) s o f
          (without-none o' o owners)
        ∙ ground (
          arith,
          member-without_owner o' o owners,
          λ (k : str_eq f' f ≡ true). ap (λ g. owns index o g s) ((str_eq_iff f' f).0 k),
        )

    from_index-IsIndexed :
        (i : Option index.I)
        → lookup f' s.offline_shared ≡ i
        → IsIndexed index (remove_from_index index f' u' o' i s)
    from_index-IsIndexed none q o f u e' = h o f u e'
    from_index-IsIndexed (some idx) q o f u e' =
        let owners = lookup f' s.offline_shared_owners in
        indexed-store_owners f' (index.unsubscribe u' o' idx) (without_owner index o' owners) s o f
          u unsubscribed
        ∙ ground (arith, h o f u e')
        ∙ sym (
            owns-store_owners f' (index.unsubscribe u' o' idx) (without_owner index o' owners) s o f
              (without-none o' o owners))
      where
        unsubscribed :
            str_eq f' f ≡ true
            → index.holds o u (index.unsubscribe u' o' idx)
              ≡ member o (owners_of (without_owner index o' (lookup f' s.offline_shared_owners)))
        unsubscribed k =
            let under = ap (λ g. underlying_of (shared_filter g)) ((str_eq_iff f' f).0 k) ∙ e' in
            index.holds-unsubscribe u' o' idx o u
            ∙ ground (
              arith,
              same-under u' u (sym e ∙ under),
              sym (ap (λ j. index.holds o u (index_of index j)) q) ∙ h o f' u under,
              member-without_owner o' o (lookup f' s.offline_shared_owners),
            )

    pub owns-remove_owner :
        (o f : Str)
        → owns index o f (remove_owner index f' u' o' s)
          ≡ (not (str_eq f' f && str_eq o' o) && owns index o f s)
    unfolding remove_owner
    owns-remove_owner = owns-from_index (lookup f' s.offline_shared) refl

    pub remove_owner-IsIndexed : IsIndexed index (remove_owner index f' u' o' s)
    unfolding remove_owner
    remove_owner-IsIndexed = from_index-IsIndexed (lookup f' s.offline_shared) refl
