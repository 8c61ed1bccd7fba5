-- ===== src/Broker/Filters/History.antt =====
-- hooks.go: the routes of the node against the history of its hooks.
use keel_mqtt_gateway.Prelude.{
  ◌≡◌, refl, sym, ap, subst, ◌∙◌, ◌↔◌, Bool, true, false, not, ◌&&◌, ◌||◌, List, [], ◌∷◌, ◌++◌, Str,
  str_eq, str_eq_iff, str_eq_refl, lookup, is_nil, any-append, arith,
}
use keel_mqtt_gateway.Routing.Table.{member}
use keel_mqtt_gateway.Routing.Table.Members.{has, has-empty, member-eq, member-set_remove}
use keel_mqtt_gateway.Broker.Filters.{
  users_of, Routes, subscribe_one, subscribe_cluster_filters, on_unsubscribed,
  unsubscribe_cluster_filters,
}
use keel_mqtt_gateway.Broker.Filters.Users.{
  subscribe-IsRouted, on_unsubscribed-IsRouted, unsubscribe_lem, users-add, users-remove, IsRouted,
}

-- A hook that ran: a client subscribed or resumed, unsubscribed, or went.
pub data Event : Type 0 where
  subscribed : Str → List Str → Event
  unsubscribed : Str → List Str → Event
  gone : Str → List Str → Event

pub run : Str → List Event → Routes → Routes
run n [] s = s
run n (subscribed c fs ∷ es) s = run n es (subscribe_cluster_filters n c fs s)
run n (unsubscribed c fs ∷ es) s = run n es (on_unsubscribed n c fs s)
run n (gone c fs ∷ es) s = run n es (unsubscribe_cluster_filters n c fs s)

-- Does the client use the filter after the hooks that ran, if it did or did not before?
pub uses : Str → Str → List Event → Bool → Bool
uses c f [] before = before
uses c f (subscribed d fs ∷ es) before = uses c f es ((str_eq d c && member f fs) || before)
uses c f (unsubscribed d fs ∷ es) before = uses c f es (not (str_eq d c && member f fs) && before)
uses c f (gone d fs ∷ es) before = uses c f es (not (str_eq d c && member f fs) && before)

abbrev pub empty_routes : Routes
empty_routes = record { refs = []; table = [] }

run-IsRouted : (n : Str) (es : List Event) (s : Routes) → IsRouted n s → IsRouted n (run n es s)
unfolding run
run-IsRouted n [] s i = i
run-IsRouted n (subscribed c fs ∷ es) s i = run-IsRouted n es _ (subscribe-IsRouted n c fs s i)
run-IsRouted n (unsubscribed c fs ∷ es) s i =
    run-IsRouted n es _ (on_unsubscribed-IsRouted n c fs s i)
run-IsRouted n (gone c fs ∷ es) s i =
    subst (λ x. IsRouted n (run n es x)) (sym (unsubscribe_lem n c fs s))
      (run-IsRouted n es (on_unsubscribed n c fs s) (on_unsubscribed-IsRouted n c fs s i))

member-snoc : (c d : Str) (xs : List Str) → member c (xs ++ d ∷ []) ≡ (member c xs || str_eq d c)
member-snoc c d xs = ground (arith, any-append (λ y. str_eq y c) xs (d ∷ []))

users-subscribe :
    (n c d f : Str) (fs : List Str) (s : Routes)
    → member c (users_of (subscribe_cluster_filters n d fs s).refs f)
      ≡ ((str_eq d c && member f fs) || member c (users_of s.refs f))
unfolding subscribe_cluster_filters subscribe_one
users-subscribe n c d f [] s = ground arith
users-subscribe n c d f (g ∷ fs) s = ground (
  arith,
  users-subscribe n c d f fs (subscribe_one n d g s),
  member-snoc c d (users_of s.refs f),
  member-eq d c (users_of s.refs f),
  users-add d g f s.refs,
  str_eq_iff d c,
  str_eq_iff g f,
)

users-unsubscribe :
    (n c d f : Str) (fs : List Str) (s : Routes)
    → member c (users_of (on_unsubscribed n d fs s).refs f)
      ≡ (not (str_eq d c && member f fs) && member c (users_of s.refs f))
unfolding on_unsubscribed
users-unsubscribe n c d f fs s =
    ground (arith, users-remove d f fs s.refs, member-set_remove d c (users_of s.refs f))

run-uses :
    (n c f : Str) (es : List Event) (s : Routes)
    → member c (users_of (run n es s).refs f) ≡ uses c f es (member c (users_of s.refs f))
unfolding run uses
run-uses n c f [] s = refl
run-uses n c f (subscribed d fs ∷ es) s =
    run-uses n c f es (subscribe_cluster_filters n d fs s)
    ∙ ap (uses c f es) (users-subscribe n c d f fs s)
run-uses n c f (unsubscribed d fs ∷ es) s =
    run-uses n c f es (on_unsubscribed n d fs s) ∙ ap (uses c f es) (users-unsubscribe n c d f fs s)
run-uses n c f (gone d fs ∷ es) s =
    run-uses n c f es (unsubscribe_cluster_filters n d fs s)
    ∙ ap (uses c f es) (
        ap (λ x. member c (users_of x.refs f)) (unsubscribe_lem n d fs s)
        ∙ users-unsubscribe n c d f fs s)

some_user : (xs : List Str) → (not (is_nil xs) ≡ true) ↔ ((c : Str) × (member c xs ≡ true))
some_user [] = (λ h. cc, λ (c, h). cc)
some_user (x ∷ xs) = (λ h. (x, ground (arith, str_eq_refl x)), λ (c, h). refl)

empty-IsRouted : (n : Str) → IsRouted n empty_routes
unfolding users_of lookup
empty-IsRouted n g = has-empty g n

-- After any hooks of clients that subscribe, unsubscribe and go, from no subscription on, and with
-- every call taken by the registry at once, the node has a route for a filter exactly when some
-- client, by the history, still uses it.
pub run-has :
    (n f : Str) (es : List Event)
    → (has f n (run n es empty_routes).table ≡ true) ↔ ((c : Str) × (uses c f es false ≡ true))
unfolding users_of
run-has n f es =
    let s = run n es empty_routes in
    let i = run-IsRouted n es empty_routes (empty-IsRouted n) f in
    let (to, from) = some_user (users_of s.refs f) in
    (
      λ h. let (c, m) = to (sym i ∙ h) in (c, sym (run-uses n c f es empty_routes) ∙ m),
      λ (c, u). i ∙ from (c, run-uses n c f es empty_routes ∙ u),
    )
