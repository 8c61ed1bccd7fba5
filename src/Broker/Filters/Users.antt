-- ===== src/Broker/Filters/Users.antt =====
-- hooks.go: the node has a route for a filter exactly while some client uses it.
use keel_mqtt_gateway.Prelude.{
  ◌≡◌, refl, ap, ◌∙◌, inl, inr, true, false, not, ◌&&◌, Option, none, some, List, [], ◌∷◌, ◌++◌,
  Str, str_eq, str_eq_iff, str_eq_refl, lookup, lookup-insert, lookup-delete, is_nil, any-append,
  if◌then◌else◌, Bool-cases, arith,
}
use keel_mqtt_gateway.Routing.Table.{member, set_remove, Table, topics_of, add_local, remove_all}
use keel_mqtt_gateway.Routing.Table.Members.{has, has-add_local, has-remove_all}
use keel_mqtt_gateway.Broker.Filters.{
  FilterRefs, users_of, add_user, add_cluster_filter_ref, drop_user, remove_one,
  remove_cluster_filter_refs, Routes, subscribe_one, subscribe_cluster_filters, on_unsubscribed,
  unsubscribe_cluster_filters,
}

-- The clients that use a filter, after one more uses it.
pub users-add :
    (c f g : Str) (refs : FilterRefs)
    → users_of (add_cluster_filter_ref c f refs).refs g ≡ (
        if str_eq f g && not (member c (users_of refs f))
        then users_of refs g ++ c ∷ []
        else users_of refs g)
unfolding add_cluster_filter_ref add_user users_of
users-add c f g refs =
    ground (arith, lookup-insert f g (topics_of (lookup f refs) ++ c ∷ []) refs, str_eq_iff f g)

users-drop :
    (f g : Str) (clients : List Str) (refs : FilterRefs)
    → users_of (drop_user f clients refs).refs g ≡ (if str_eq f g then clients else users_of refs g)
unfolding users_of drop_user
users-drop f g [] refs = ground (arith, lookup-delete f g refs)
users-drop f g (c ∷ clients) refs = ground (arith, lookup-insert f g (c ∷ clients) refs)

pub users-remove_one :
    (c f g : Str) (o : Option (List Str)) (refs : FilterRefs)
    → lookup f refs ≡ o
    → users_of (remove_one c f o refs).refs g
      ≡ (if str_eq f g then set_remove c (users_of refs g) else users_of refs g)
unfolding users_of remove_one
users-remove_one c f g none refs e = elim (Bool-cases (str_eq f g)) [
  | inl h ↦ rw (h, ← (str_eq_iff f g).0 h, e) refl
  | inr h ↦ rw h refl
]
users-remove_one c f g (some clients) refs e =
    rw (users-drop f g (set_remove c clients) refs) (elim (Bool-cases (str_eq f g)) [
      | inl h ↦ rw (h, ← (str_eq_iff f g).0 h, e) refl
      | inr h ↦ rw h refl
    ])

-- A filter is given up where nobody is left that uses it.
last_users-remove_one :
    (c f : Str) (o : Option (List Str)) (refs : FilterRefs)
    → (remove_one c f o refs).last_users
      ≡ (if is_nil (set_remove c (topics_of o)) then f ∷ [] else [])
unfolding remove_one drop_user
last_users-remove_one c f none refs = refl
last_users-remove_one c f (some clients) refs =
    elim (set_remove c clients)
      as (λ xs. (drop_user f xs refs).last_users ≡ (if is_nil xs then f ∷ [] else [])) [
        | [] ↦ refl
        | x ∷ xs ↦ refl
      ]

set_remove-twice : (c : Str) (xs : List Str) → set_remove c (set_remove c xs) ≡ set_remove c xs
set_remove-twice c [] = refl
set_remove-twice c (x ∷ xs) = ground (arith, set_remove-twice c xs)

pub users-remove :
    (c g : Str) (fs : List Str) (refs : FilterRefs)
    → users_of (remove_cluster_filter_refs c fs refs).refs g
      ≡ (if member g fs then set_remove c (users_of refs g) else users_of refs g)
unfolding remove_cluster_filter_refs
users-remove c g [] refs = refl
users-remove c g (f ∷ fs) refs = ground (
  arith,
  users-remove c g fs (remove_one c f (lookup f refs) refs).refs,
  users-remove_one c f g (lookup f refs) refs refl,
  set_remove-twice c (users_of refs g),
)

pub last_users-remove :
    (c g : Str) (fs : List Str) (refs : FilterRefs)
    → member g (remove_cluster_filter_refs c fs refs).last_users
      ≡ (member g fs && is_nil (set_remove c (users_of refs g)))
unfolding remove_cluster_filter_refs users_of
last_users-remove c g [] refs = refl
last_users-remove c g (f ∷ fs) refs =
    let one = remove_one c f (lookup f refs) refs in
    ground (
      arith,
      any-append (λ y. str_eq y g) one.last_users
          (remove_cluster_filter_refs c fs one.refs).last_users,
      ap (member g) (last_users-remove_one c f (lookup f refs) refs),
      last_users-remove c g fs one.refs,
      users-remove_one c f g (lookup f refs) refs refl,
      set_remove-twice c (users_of refs g),
      str_eq_iff f g,
    )

pub is_first-add :
    (c f : Str) (refs : FilterRefs)
    → (add_cluster_filter_ref c f refs).is_first ≡ is_nil (users_of refs f)
unfolding add_cluster_filter_ref add_user
is_first-add c f refs =
    elim (users_of refs f) as (λ xs. (add_user c f xs refs).is_first ≡ is_nil xs) [
      | [] ↦ refl
      | x ∷ xs ↦ ground arith
    ]

is_nil-snoc : (c : Str) (xs : List Str) → is_nil (xs ++ c ∷ []) ≡ false
is_nil-snoc c [] = refl
is_nil-snoc c (x ∷ xs) = refl

remove_unless_nil :
    (n : Str) (xs : List Str) (t : Table)
    → (if is_nil xs then t else remove_all xs n t) ≡ remove_all xs n t
unfolding remove_all
remove_unless_nil n [] t = refl
remove_unless_nil n (x ∷ xs) t = refl

-- The node has a route for a filter exactly while some client uses it.
abbrev pub IsRouted : Str → Routes → Type 0
IsRouted node_id s = (g : Str) → has g node_id s.table ≡ not (is_nil (users_of s.refs g))

module _ (n c : Str) where
  pub add-IsRouted : (f : Str) (s : Routes) → IsRouted n s → IsRouted n (subscribe_one n c f s)
  unfolding subscribe_one
  add-IsRouted f s i g = ground (
    arith,
    has-add_local g n f n s.table,
    users-add c f g s.refs,
    is_first-add c f s.refs,
    is_nil-snoc c (users_of s.refs g),
    i g,
    i f,
    str_eq_refl n,
    str_eq_iff f g,
  )

  pub subscribe-IsRouted :
      (fs : List Str) (s : Routes) → IsRouted n s → IsRouted n (subscribe_cluster_filters n c fs s)
  unfolding subscribe_cluster_filters
  subscribe-IsRouted [] s i = i
  subscribe-IsRouted (f ∷ fs) s i =
      subscribe-IsRouted fs (subscribe_one n c f s) (add-IsRouted f s i)

  pub on_unsubscribed-IsRouted :
      (fs : List Str) (s : Routes) → IsRouted n s → IsRouted n (on_unsubscribed n c fs s)
  unfolding on_unsubscribed
  on_unsubscribed-IsRouted fs s i g = ground (
    arith,
    has-remove_all g n (remove_cluster_filter_refs c fs s.refs).last_users n s.table,
    last_users-remove c g fs s.refs,
    users-remove c g fs s.refs,
    i g,
    str_eq_refl n,
  )

  -- The batch of a connection that ends does what unsubscribing does.
  pub unsubscribe_lem :
      (fs : List Str) (s : Routes) → unsubscribe_cluster_filters n c fs s ≡ on_unsubscribed n c fs s
  unfolding unsubscribe_cluster_filters on_unsubscribed
  unsubscribe_lem [] s = unfold remove_cluster_filter_refs in unfold remove_all in refl
  unsubscribe_lem (f ∷ fs) s =
      let removed = remove_cluster_filter_refs c (f ∷ fs) s.refs in
      ap (λ t. record { refs = removed.refs; table = t })
        (remove_unless_nil n removed.last_users s.table)

-- When the only client of a filter goes and another subscribes to it, the new client is the first,
-- and if the registry takes its call before the call of the one that left, the node has no route
-- for the filter although the new client uses it.
pub crossed_calls :
    (n a b f : Str) (s : Routes)
    → str_eq a b ≡ false
    → users_of s.refs f ≡ a ∷ []
    → let removed = remove_cluster_filter_refs a (f ∷ []) s.refs in
      let added = add_cluster_filter_ref b f removed.refs in
      (added.is_first ≡ true)
      × (member b (users_of added.refs f) ≡ true)
      × (has f n (remove_all removed.last_users n (add_local f n s.table)) ≡ false)
crossed_calls n a b f s e u =
    let removed = remove_cluster_filter_refs a (f ∷ []) s.refs in
    let nobody : users_of removed.refs f ≡ [] =
      ground (arith, users-remove a f (f ∷ []) s.refs, str_eq_refl f, str_eq_refl a) in
    let given_up = last_users-remove a f (f ∷ []) s.refs in
    (
      is_first-add b f removed.refs ∙ ap is_nil nobody,
      ground (arith, users-add b f f removed.refs, nobody, str_eq_refl f, str_eq_refl b),
      ground (
        arith,
        has-remove_all f n removed.last_users n (add_local f n s.table),
        given_up,
        u,
        str_eq_refl f,
        str_eq_refl n,
        str_eq_refl a,
      ),
    )
