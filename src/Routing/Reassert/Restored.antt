-- ===== src/Routing/Reassert/Restored.antt =====
-- reconciler.go with router.go: what the store holds after a pass.
use keel_mqtt_gateway.Prelude.{
  ◌≡◌, refl, ap, inl, inr, Bool, true, false, not, ◌&&◌, ◌||◌, List, [], ◌∷◌, Str, str_eq,
  str_eq_iff, any, Bool-cases, arith,
}
use keel_mqtt_gateway.Routing.Keys.{key_sep, route_key}
use keel_mqtt_gateway.Routing.Keys.Roundtrip.{IsFree}
use keel_mqtt_gateway.Routing.Table.{member, set_add, Table, topics_for_node, subscribe, rebuild}
use keel_mqtt_gateway.Routing.Table.Members.{has, member-set_add}
use keel_mqtt_gateway.Routing.Table.Agreement.{str_eq-route_key, rebuild-Agrees}
use keel_mqtt_gateway.Routing.Reassert.{
  add_filters, seen_filters, local_subscriptions, missing_from, reassert, reassert_once,
}

-- Does the server hold a client, connected or not, that has the filter?
abbrev pub is_local : Str → List (List Str) → Bool
is_local t = any (member t)

member-add_filters :
    (t : Str) (filters seen : List Str)
    → member t (add_filters filters seen) ≡ (member t filters || member t seen)
member-add_filters t [] seen = refl
member-add_filters t (f ∷ filters) seen =
    ground (arith, member-add_filters t filters (set_add f seen), member-set_add f t seen)

member-seen_filters :
    (t : Str) (clients : List (List Str)) (seen : List Str)
    → member t (seen_filters clients seen) ≡ (is_local t clients || member t seen)
member-seen_filters t [] seen = refl
member-seen_filters t (filters ∷ clients) seen = ground (
  arith,
  member-seen_filters t clients (add_filters filters seen),
  member-add_filters t filters seen,
)

pub member-local_subscriptions :
    (t : Str) (clients : List (List Str))
    → member t (local_subscriptions clients) ≡ is_local t clients
unfolding local_subscriptions
member-local_subscriptions t clients = ground (arith, member-seen_filters t clients [])

member-missing_from :
    (t : Str) (known local : List Str)
    → member t (missing_from known local) ≡ (member t local && not (member t known))
unfolding missing_from
member-missing_from t known [] = refl
member-missing_from t known (f ∷ local) = elim (Bool-cases (str_eq f t)) [
  | inl e ↦
      ground
        (arith, member-missing_from t known local, ap (λ y. member y known) ((str_eq_iff f t).0 e))
  | inr e ↦ ground (arith, member-missing_from t known local)
]

subscribe-keys :
    (s p : Bool) (m : Table) (keys : List Str) (t n k : Str)
    → member k (subscribe s p m keys t n).keys ≡ ((s && str_eq (route_key t n) k) || member k keys)
unfolding subscribe
subscribe-keys true p m keys t n k = member-set_add (route_key t n) k keys
subscribe-keys false p m keys t n k = refl

module _ (store_ok publish_ok : Str → Bool) (m : Table) (node_id : Str)
    (free : IsFree key_sep node_id) where
  member-reassert :
      (missing keys : List Str) (t n : Str)
      → IsFree key_sep n
      → member (route_key t n) (reassert store_ok publish_ok m node_id missing keys)
        ≡ ((str_eq node_id n && (member t missing && store_ok t)) || member (route_key t n) keys)
  unfolding reassert subscribe
  member-reassert [] keys t n h = ground arith
  member-reassert (t' ∷ missing) keys t n h = ground (
    arith,
    member-reassert missing (subscribe (store_ok t') (publish_ok t') m keys t' node_id).keys t n h,
    subscribe-keys (store_ok t') (publish_ok t') m keys t' node_id (route_key t n),
    str_eq-route_key t n t' node_id h free,
    λ (e : str_eq t' t ≡ true). ap store_ok ((str_eq_iff t' t).0 e),
  )

  -- Whichever of its writes the store and the channel take, a pass of the routing reconciler adds
  -- to what the table would be rebuilt to from the store exactly the topics of this node that a
  -- client has that the server holds, be it connected or only its session, that its table, which
  -- may be behind the store, does not hold, and whose write the store takes; nothing is lost, and
  -- neither what the channel takes nor an error of one write changes any of this; node IDs hold no
  -- NUL.
  pub reassert_once_lem :
      (clients : List (List Str)) (keys : List Str) (t n : Str)
      → IsFree key_sep n
      → let keys' = reassert_once store_ok publish_ok m node_id clients keys in
        has t n (rebuild keys' []) ≡ (
          (str_eq node_id n && (is_local t clients && (not (has t node_id m) && store_ok t)))
          || has t n (rebuild keys []))
  unfolding reassert_once has topics_for_node
  reassert_once_lem clients keys t n h =
      let known = topics_for_node node_id m in
      let local = local_subscriptions clients in
      ground (
        arith,
        rebuild-Agrees (reassert_once store_ok publish_ok m node_id clients keys) t n h,
        rebuild-Agrees keys t n h,
        member-reassert (missing_from known local) keys t n h,
        member-missing_from t known local,
        member-local_subscriptions t clients,
      )
