-- ===== src/Routing/Shared/Sets.antt =====
-- router.go: what each change does to the owners of a shared filter and to their index.
use keel_mqtt_gateway.Prelude.{
  ◌≡◌, refl, subst, str_eq_refl, [], ◌∷◌, Option, none, some, sym, ap, ◌∙◌, Bool, true, false, ◌&&◌,
  ◌||◌, List, Str, Dict, str_eq, str_eq_iff, lookup, insert, lookup-insert, lookup-delete, delete,
  if◌then◌else◌, arith,
}
use keel_mqtt_gateway.Acl.Topic.{shared_filter}
use keel_mqtt_gateway.Routing.Table.{member, set_add}
use keel_mqtt_gateway.Routing.Table.Members.{member-set_add}
use keel_mqtt_gateway.Routing.Shared.{
  TopicsIndex, owners_of, underlying_of, SharedOwners, index_of, put_owner, add_owner, scan_from,
  scan_owner,
}

pub same-under : (u' u : Str) → some u' ≡ some u → str_eq u' u ≡ true
same-under u' u e = (str_eq_iff u' u).1 (ground (arith, e))

pub apply_if {ℓ κ} :
    {A : Type ℓ} {B : Type κ} (r : A → B) (b : Bool) (x y : A)
    → r (if b then x else y) ≡ (if b then r x else r y)
apply_if r true x y = refl
apply_if r false x y = refl

-- What a reader of a map's entries reads after a change.
module _ {V B : Type 0} (r : Option V → B) where
  pub read-insert :
      (f' f : Str) (v : V) (d : Dict V)
      → r (lookup f (insert f' v d)) ≡ (if str_eq f' f then r (some v) else r (lookup f d))
  read-insert f' f v d =
      ap r (lookup-insert f' f v d) ∙ apply_if r (str_eq f' f) (some v) (lookup f d)

  pub read-delete :
      (f' f : Str) (d : Dict V)
      → r (lookup f (delete f' d)) ≡ (if str_eq f' f then r none else r (lookup f d))
  read-delete f' f d = ap r (lookup-delete f' f d) ∙ apply_if r (str_eq f' f) none (lookup f d)

  -- Writing back what is read changes nothing that is read.
  insert-read :
      (f' f : Str) (v : V) (d : Dict V)
      → r (some v) ≡ r (lookup f' d)
      → r (lookup f (insert f' v d)) ≡ r (lookup f d)
  insert-read f' f v d h = read-insert f' f v d ∙ at (str_eq f' f) refl
    where
      at :
          (b : Bool) → str_eq f' f ≡ b → (if b then r (some v) else r (lookup f d)) ≡ r (lookup f d)
      at true e = h ∙ ap (λ g. r (lookup g d)) ((str_eq_iff f' f).0 e)
      at false e = refl

module _ (index : TopicsIndex) where
  -- Is the owner in the set of the filter?
  abbrev pub owns : Str → Str → SharedOwners index → Bool
  owns o filter s = member o (owners_of (lookup filter s.offline_shared_owners))

  -- Does the index of the filter hold the owner for what is under the filter?
  abbrev pub indexed : Str → Str → Str → SharedOwners index → Bool
  indexed o filter underlying s =
      index.holds o underlying (index_of index (lookup filter s.offline_shared))

  -- The index of each shared filter holds exactly the owners in its set.
  abbrev pub IsIndexed : SharedOwners index → Type 0
  IsIndexed s =
      (o f u : Str) → underlying_of (shared_filter f) ≡ some u → indexed o f u s ≡ owns o f s

  owns-put_owner :
      (b : Bool) (f' u' o' : Str) (s : SharedOwners index) (o f : Str)
      → (b ≡ true → owns o' f' s ≡ true)
      → owns o f (
          put_owner index b f' u' o'
            (index_of index (lookup f' s.offline_shared))
            (owners_of (lookup f' s.offline_shared_owners))
            s)
        ≡ ((str_eq f' f && str_eq o' o) || owns o f s)
  owns-put_owner true f' u' o' s o f h =
      ap (member o) (
        insert-read owners_of f' f (owners_of (lookup f' s.offline_shared_owners))
          s.offline_shared_owners refl)
      ∙ there (h refl)
    where
      there : owns o' f' s ≡ true → owns o f s ≡ ((str_eq f' f && str_eq o' o) || owns o f s)
      there k = ground (
        arith,
        λ (e : str_eq f' f ≡ true) (e' : str_eq o' o ≡ true).
            sym (λ i. owns ((str_eq_iff o' o).0 e' i) ((str_eq_iff f' f).0 e i) s) ∙ k,
      )
  owns-put_owner false f' u' o' s o f h = ground (
    arith,
    lookup-insert f' f (set_add o' (owners_of (lookup f' s.offline_shared_owners)))
        s.offline_shared_owners,
    member-set_add o' o (owners_of (lookup f' s.offline_shared_owners)),
    λ (e : str_eq f' f ≡ true). ap (λ g. owns o g s) ((str_eq_iff f' f).0 e),
  )

  put_owner-IsIndexed :
      (b : Bool) (f' u' o' : Str) (s : SharedOwners index)
      → underlying_of (shared_filter f') ≡ some u'
      → IsIndexed s
      → IsIndexed (
          put_owner index b f' u' o'
            (index_of index (lookup f' s.offline_shared))
            (owners_of (lookup f' s.offline_shared_owners))
            s)
  put_owner-IsIndexed true f' u' o' s e h o f u e' =
      ap (index.holds o u) (
        insert-read (index_of index) f' f (index_of index (lookup f' s.offline_shared))
          s.offline_shared refl)
      ∙ h o f u e'
      ∙ sym (
          ap (member o) (
            insert-read owners_of f' f (owners_of (lookup f' s.offline_shared_owners))
              s.offline_shared_owners refl))
  put_owner-IsIndexed false f' u' o' s e h o f u e' =
      let idx = index_of index (lookup f' s.offline_shared) in
      let owners = owners_of (lookup f' s.offline_shared_owners) in
      ap (index.holds o u)
        (read-insert (index_of index) f' f (index.subscribe o' u' idx) s.offline_shared)
      ∙ at (str_eq f' f) refl idx owners (index.holds-subscribe o' u' idx o u)
          (λ k. (h o f' u (under k), same-under u' u (sym e ∙ under k)))
      ∙ sym (ap (member o) (read-insert owners_of f' f (set_add o' owners) s.offline_shared_owners))
    where
      under : str_eq f' f ≡ true → underlying_of (shared_filter f') ≡ some u
      under k = ap (λ g. underlying_of (shared_filter g)) ((str_eq_iff f' f).0 k) ∙ e'

      at :
          (b : Bool)
          → str_eq f' f ≡ b
          → (idx : index.I) (owners : List Str)
          → index.holds o u (index.subscribe o' u' idx)
            ≡ ((str_eq o' o && str_eq u' u) || index.holds o u idx)
          → (str_eq f' f ≡ true → (index.holds o u idx ≡ member o owners) × (str_eq u' u ≡ true))
          → index.holds o u
              (if b then index.subscribe o' u' idx else index_of index (lookup f s.offline_shared))
            ≡ member o
                (if b then set_add o' owners else owners_of (lookup f s.offline_shared_owners))
      at true k idx owners q r = ground (arith, q, (r k).0, (r k).1, member-set_add o' o owners)
      at false k idx owners q r = h o f u e'

  nothing-nil : (xs : List Str) → ((o : Str) → member o xs ≡ false) → xs ≡ []
  nothing-nil [] h = refl
  nothing-nil (x ∷ xs) h = absurd (ground (arith, h x, str_eq_refl x))

  module _ (f' u' o' : Str) (s : SharedOwners index)
      (e : underlying_of (shared_filter f') ≡ some u') (h : IsIndexed s) where
    pub owns-add_owner :
        (o f : Str)
        → owns o f (add_owner index f' u' o' s) ≡ ((str_eq f' f && str_eq o' o) || owns o f s)
    unfolding add_owner
    owns-add_owner o f = owns-put_owner (owns o' f' s) f' u' o' s o f (λ k. k)

    pub add_owner-IsIndexed : IsIndexed (add_owner index f' u' o' s)
    unfolding add_owner
    add_owner-IsIndexed = put_owner-IsIndexed (owns o' f' s) f' u' o' s e h

    -- A filter without an index has no owners, so the new set is the old one.
    abbrev scanned : SharedOwners index
    scanned =
        put_owner index false f' u' o' (index_of index (lookup f' s.offline_shared))
          (owners_of (lookup f' s.offline_shared_owners)) s

    scan_from-put_owner :
        (i : Option index.I)
        → lookup f' s.offline_shared ≡ i
        → scan_from index f' u' o' i s ≡ scanned
    scan_from-put_owner none q =
        sym (λ j. put_owner index false f' u' o' (index_of index (q j)) (no_owners j) s)
      where
        no_owners : owners_of (lookup f' s.offline_shared_owners) ≡ []
        no_owners = nothing-nil _ (λ o.
            sym (h o f' u' e)
            ∙ ap (λ j. index.holds o u' (index_of index j)) q
            ∙ index.holds-new o u')
    scan_from-put_owner (some idx) q = sym (λ j.
        put_owner index false f' u' o' (index_of index (q j))
          (owners_of (lookup f' s.offline_shared_owners)) s)

    scan_owner-put_owner : scan_owner index f' u' o' s ≡ scanned
    unfolding scan_owner
    scan_owner-put_owner = scan_from-put_owner (lookup f' s.offline_shared) refl

    pub owns-scan_owner :
        (o f : Str)
        → owns o f (scan_owner index f' u' o' s) ≡ ((str_eq f' f && str_eq o' o) || owns o f s)
    owns-scan_owner o f =
        ap (owns o f) scan_owner-put_owner
        ∙ owns-put_owner false f' u' o' s o f (λ k. ground (arith, k))

    pub scan_owner-IsIndexed : IsIndexed (scan_owner index f' u' o' s)
    scan_owner-IsIndexed =
        subst IsIndexed (sym scan_owner-put_owner) (put_owner-IsIndexed false f' u' o' s e h)
