-- ===== src/Broker/Dispatch.antt =====
-- internal/broker/offline_delivery_dispatch.go: a publish for the offline sessions that this node
-- owns. What the topic index answers comes in with the selections, what Redis holds of a client's
-- subscriptions is a function, and so is which of its pages fail; Queue is a parameter.
pub mod Pages
pub mod Due
pub mod Candidates
pub mod Reaches
use keel_mqtt_gateway.Prelude.{
  ℕ, zero, suc, ◌+◌, Bool, true, false, not, ◌||◌, Option, none, some, List, [], ◌∷◌, ◌++◌, map,
  Str, Dict, is_nil, length, take, ◌==◌, if◌then◌else◌,
}
use keel_mqtt_gateway.Session.Offline.{StoredSubscription, OfflineSession, from_storage}
use keel_mqtt_gateway.Session.Delivery.{InflightMessage, QueueResult, deliver}
use keel_mqtt_gateway.Routing.Keys.{Base64}
use keel_mqtt_gateway.Routing.Table.{Table}
use keel_mqtt_gateway.Routing.Offline.{
  OfflineSharedSelection, offline_delivery_candidates, offline_shared_clients_for, owned_client_ids,
}

-- redisScanCount.
abbrev pub scan_count : ℕ
scan_count = 256

abbrev pub skip {ℓ} : {A : Type ℓ} → ℕ → List A → List A
skip zero xs = xs
skip (suc n) [] = []
skip (suc n) (x ∷ xs) = skip n xs

abbrev pub prepend {ℓ} : {A : Type ℓ} → List A → Option (List A) → Option (List A)
prepend xs none = none
prepend xs (some ys) = some (xs ++ ys)

-- What the registry offers beside OwnedClientIDs: offlineCandidateSelector, offlineSharedSelector
-- alone, or neither.
pub data Selectors : Type 0 where
  of_candidates : Selectors
  of_shared : Selectors
  without : Selectors

-- The clients and the decisions that DeliverOffline asks the registry for.
unfoldable pub select_owned :
    Base64 → Selectors → Table → Str → Str → Dict OfflineSharedSelection → List Str × Dict Str
unfolding offline_delivery_candidates owned_client_ids offline_shared_clients_for
select_owned base64 of_candidates m topic node_id selections =
    offline_delivery_candidates base64 m topic node_id selections
select_owned base64 of_shared m topic node_id selections =
    (owned_client_ids base64 m node_id, offline_shared_clients_for node_id selections)
select_owned base64 without m topic node_id selections = (owned_client_ids base64 m node_id, [])

module _ (fails : ℕ → Bool) (rows : Str → List StoredSubscription) where
  -- The loop of OwnedOfflineSessions, page by page, with as much fuel as there are IDs.
  unfoldable pub pages : ℕ → ℕ → List Str → Option (List OfflineSession)
  unfolding from_storage
  pages zero page ids = some []
  pages (suc fuel) page ids =
      let rest = pages fuel (page + 1) (skip scan_count ids) in
      let read = map (λ id. from_storage id (rows id)) (take scan_count ids) in
      if is_nil ids then some [] else if fails page then none else prepend read rest

  -- OwnedOfflineSessions.
  unfoldable pub owned_offline_sessions : List Str → Option (List OfflineSession)
  unfolding pages
  owned_offline_sessions ids = pages (length ids) 0 ids

  unfoldable pub deliver_fetched :
      {W : Type 0}
      → (Str → InflightMessage → W → W × QueueResult)
      → Dict Str
      → Str
      → Str
      → ℕ
      → Option (List OfflineSession)
      → W
      → W
  unfolding deliver
  deliver_fetched queue selected topic payload qos none w = w
  deliver_fetched queue selected topic payload qos (some sessions) w =
      (deliver queue (some selected) sessions topic payload qos w).0

  -- DeliverOffline; `is_configured` is false without a registry or a store.
  unfoldable pub deliver_offline :
      {W : Type 0}
      → Base64
      → (Str → InflightMessage → W → W × QueueResult)
      → Bool
      → Selectors
      → Table
      → Dict OfflineSharedSelection
      → Str
      → Str
      → Str
      → ℕ
      → W
      → W
  unfolding owned_offline_sessions select_owned deliver_fetched
  deliver_offline base64 queue is_configured selectors m selections node_id topic payload qos w =
      let (owned, selected) = select_owned base64 selectors m topic node_id selections in
      let delivered =
        deliver_fetched queue selected topic payload qos (owned_offline_sessions owned) w in
      if not is_configured || qos == 0 then w else if is_nil owned then w else delivered
