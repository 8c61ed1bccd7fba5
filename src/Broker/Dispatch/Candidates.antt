-- ===== src/Broker/Dispatch/Candidates.antt =====
-- router.go, OfflineDeliveryCandidates: the owner of a matching ownership key is among the clients.
use keel_mqtt_gateway.Prelude.{
  ◌≡◌, ap, ◌∙◌, inl, inr, ◌≢◌, true, Option, none, some, List, [], ◌∷◌, Str, Dict, str_eq,
  str_eq_iff, str_eq_refl, Bool-cases, arith,
}
use keel_mqtt_gateway.Acl.Topic.{shared_filter, match_topic}
use keel_mqtt_gateway.Routing.Keys.{Base64, ownership_key, ownership_key_parts}
use keel_mqtt_gateway.Routing.Keys.Roundtrip.{IsFree, ownership_key_roundtrip}
use keel_mqtt_gateway.Routing.Table.{member, Table, topics_for_node}
use keel_mqtt_gateway.Routing.Table.Members.{has, member-set_add}
use keel_mqtt_gateway.Routing.Offline.{
  OfflineSharedSelection, add_candidate, ordinary_candidates, add_all, offline_shared_clients_for,
  offline_delivery_candidates,
}

module _ (c f topic : Str) (base64 : Base64) where
  add_candidate-keeps :
      (o : Option (Str × Str)) (clients : List Str)
      → member c clients ≡ true
      → member c (add_candidate base64 topic o clients) ≡ true
  unfolding add_candidate
  add_candidate-keeps none clients h = h
  add_candidate-keeps (some (id, filter)) clients h = ground (arith, member-set_add id c clients)

  ordinary-keeps :
      (keys clients : List Str)
      → member c clients ≡ true
      → member c (ordinary_candidates base64 topic keys clients) ≡ true
  unfolding ordinary_candidates
  ordinary-keeps [] clients h = h
  ordinary-keeps (key ∷ keys) clients h =
      ordinary-keeps keys _ (add_candidate-keeps (ownership_key_parts base64 key) clients h)

  added :
      (clients : List Str)
      → shared_filter f ≡ none
      → match_topic f topic ≡ true
      → member c (add_candidate base64 topic (some (c, f)) clients) ≡ true
  unfolding add_candidate
  added clients h m = rw (h, m) (ground (arith, member-set_add c c clients, str_eq_refl c))

  ordinary-finds :
      (key : Str) (keys clients : List Str)
      → shared_filter f ≡ none
      → match_topic f topic ≡ true
      → ownership_key_parts base64 key ≡ some (c, f)
      → member key keys ≡ true
      → member c (ordinary_candidates base64 topic keys clients) ≡ true
  unfolding ordinary_candidates
  ordinary-finds key [] clients h m e k = absurd (ground arith)
  ordinary-finds key (key' ∷ keys) clients h m e k = elim (Bool-cases (str_eq key' key)) [
    | inl e' ↦ ordinary-keeps keys _ (
        ap (λ o. member c (add_candidate base64 topic o clients))
          (ap (ownership_key_parts base64) ((str_eq_iff key' key).0 e') ∙ e)
        ∙ added clients h m)
    | inr e' ↦ ordinary-finds key keys _ h m e (ground arith)
  ]

  add_all-keeps :
      (selected : Dict Str) (clients : List Str)
      → member c clients ≡ true
      → member c (add_all base64 selected clients) ≡ true
  unfolding add_all
  add_all-keeps [] clients h = h
  add_all-keeps ((filter, id) ∷ selected) clients h =
      add_all-keeps selected _ (ground (arith, member-set_add id c clients))

  pub candidate :
      (node : Str) (t : Table) (selections : Dict OfflineSharedSelection)
      → has (ownership_key base64 c f) node t ≡ true
      → IsFree 0 c
      → f ≢ []
      → shared_filter f ≡ none
      → match_topic f topic ≡ true
      → member c (offline_delivery_candidates base64 t topic node selections).0 ≡ true
  unfolding offline_delivery_candidates topics_for_node has
  candidate node t selections k free n h m =
      add_all-keeps (offline_shared_clients_for node selections) _ (
        ordinary-finds (ownership_key base64 c f) (topics_for_node node t) [] h m
          (ownership_key_roundtrip base64 c f free n) k)
