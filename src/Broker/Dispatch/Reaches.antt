-- ===== src/Broker/Dispatch/Reaches.antt =====
-- offline_delivery_dispatch.go with router.go, redis_session.go and delivery.go: a publish reaches
-- the queue of an offline client whose filter matches it.
use keel_mqtt_gateway.Prelude.{
  ℕ, ◌≡◌, refl, sym, ap, inl, inr, ◌≢◌, subst, Bool, true, false, not, ◌&&◌, none, some, List, [],
  ◌∷◌, map, Str, Dict, str_eq, str_eq_iff, str_eq_refl, any, is_nil, ◌==◌, Bool-cases, arith,
}
use keel_mqtt_gateway.Acl.Topic.{shared_filter, match_topic}
use keel_mqtt_gateway.Session.Offline.{StoredSubscription, from_storage}
use keel_mqtt_gateway.Session.Delivery.{InflightMessage, QueueResult}
use keel_mqtt_gateway.Session.Delivery.Attempts.{is_due, attempts, enqueue_all, deliver-attempts}
use keel_mqtt_gateway.Routing.Keys.{Base64, ownership_key}
use keel_mqtt_gateway.Routing.Keys.Roundtrip.{IsFree}
use keel_mqtt_gateway.Routing.Table.{member, Table}
use keel_mqtt_gateway.Routing.Table.Members.{has}
use keel_mqtt_gateway.Routing.Offline.{OfflineSharedSelection, offline_delivery_candidates}
use keel_mqtt_gateway.Broker.Dispatch.{
  of_candidates, select_owned, deliver_fetched, deliver_offline,
}
use keel_mqtt_gateway.Broker.Dispatch.Pages.{session_of, owned_offline_sessions_lem}
use keel_mqtt_gateway.Broker.Dispatch.Due.{is_row, due, row-counts}
use keel_mqtt_gateway.Broker.Dispatch.Candidates.{candidate}

-- The publish, for the client, at a quality above 0.
abbrev pub is_copy : Str → Str → Str → Str × InflightMessage → Bool
is_copy client_id topic payload (id, msg) =
    str_eq id client_id
    && (str_eq msg.topic topic && (str_eq msg.payload payload && not (msg.qos == 0)))

module _ (c topic payload : Str) (qos : ℕ) (rows : Str → List StoredSubscription) where
  any-attempts :
      (selected : Dict Str) (ids : List Str)
      → is_due topic payload qos selected (session_of rows c) ≡ true
      → member c ids ≡ true
      → any
          (is_copy c topic payload)
          (attempts topic payload qos selected (map (session_of rows) ids))
        ≡ true
  unfolding from_storage
  any-attempts selected [] h k = absurd (ground arith)
  any-attempts selected (id ∷ ids) h k = elim (Bool-cases (str_eq id c)) [
    | inl e ↦ ground (
      arith,
      subst (λ z. is_due topic payload qos selected (session_of rows z) ≡ true)
          (sym ((str_eq_iff id c).0 e)) h,
      str_eq_refl topic,
      str_eq_refl payload,
    )
    | inr e ↦ elim (Bool-cases (is_due topic payload qos selected (session_of rows id))) [
      | inl d ↦ ground (arith, any-attempts selected ids h)
      | inr d ↦ ground (arith, any-attempts selected ids h)
    ]
  ]

nil-member : (c : Str) (xs : List Str) → member c xs ≡ true → is_nil xs ≡ false
nil-member c [] h = absurd (ground arith)
nil-member c (x ∷ xs) h = refl

-- Where the node owns the client's session for a filter that is not a shared one and matches the
-- topic, Redis holds the client's subscription to it at a quality above 0, that of the publish is
-- above 0 and every page of subscriptions can be read, DeliverOffline hands the queue some list of
-- messages, one by one and whatever the queue answers to each, and among them is a copy of the
-- publish for the client at a quality above 0; the client's ID holds no NUL and the filter is not
-- empty.
pub offline_publish_reaches :
    {W : Type 0} (base64 : Base64) (fails : ℕ → Bool) (rows : Str → List StoredSubscription)
    (queue : Str → InflightMessage → W → W × QueueResult) (t : Table)
    (selections : Dict OfflineSharedSelection) (node c f topic payload : Str) (qos : ℕ) (w : W)
    → has (ownership_key base64 c f) node t ≡ true
    → IsFree 0 c
    → f ≢ []
    → shared_filter f ≡ none
    → match_topic f topic ≡ true
    → any (is_row c f) (rows c) ≡ true
    → (qos == 0) ≡ false
    → ((n : ℕ) → fails n ≡ false)
    → (msgs : List (Str × InflightMessage)) × (deliver_offline fails rows base64 queue true
          of_candidates t selections node topic payload qos w
        ≡ (enqueue_all queue msgs (w, 0)).0)
      × (any (is_copy c topic payload) msgs ≡ true)
unfolding deliver_offline select_owned deliver_fetched from_storage
offline_publish_reaches base64 fails rows queue t selections node c f topic payload qos w k free n h
      m r q ok =
    let owned = (offline_delivery_candidates base64 t topic node selections).0 in
    let selected = (offline_delivery_candidates base64 t topic node selections).1 in
    let found = candidate c f topic base64 node t selections k free n h m in
    (
      attempts topic payload qos selected (map (session_of rows) owned),
      rw (q, nil-member c owned found, owned_offline_sessions_lem fails rows owned ok)
          (ap (λ r. r.0)
            (deliver-attempts queue (some selected) (map (session_of rows) owned) topic payload qos
              w)),
      any-attempts c topic payload qos rows selected owned
          (due (session_of rows c) topic payload qos selected q
            (row-counts c f topic (session_of rows c) selected (rows c) h m r))
          found,
    )
