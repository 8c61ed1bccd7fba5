-- ===== src/Examples/Dispatches.antt =====
-- A publish for one offline client, whose queue is a list of what it was given.
use keel_mqtt_gateway.Prelude.{
  ◌≡◌, refl, true, false, some, List, [], ◌∷◌, ◌++◌, Str, codes, str_eq, any, arith,
}
use keel_mqtt_gateway.Routing.Keys.{Base64, ownership_key, ownership_key_parts, parts_of}
use keel_mqtt_gateway.Routing.Offline.{add_candidate, ordinary_candidates, add_all}
use keel_mqtt_gateway.Routing.Table.Members.{has}
use keel_mqtt_gateway.Acl.Topic.{shared_filter, match_topic}
use keel_mqtt_gateway.Routing.Table.{Table}
use keel_mqtt_gateway.Session.Offline.{StoredSubscription}
use keel_mqtt_gateway.Session.Delivery.{InflightMessage, QueueResult, queued}
use keel_mqtt_gateway.Session.Delivery.Attempts.{enqueue_all}
use keel_mqtt_gateway.Broker.Dispatch.{of_candidates, deliver_offline}
use keel_mqtt_gateway.Broker.Dispatch.Reaches.{is_copy, offline_publish_reaches}

abbrev plain_codec : Base64
plain_codec = record { encode = λ s. s; decode = some; decode-encode = λ s. refl }

abbrev log_queue :
    Str
    → InflightMessage
    → List (Str × InflightMessage)
    → List (Str × InflightMessage) × QueueResult
log_queue id msg w = (w ++ (id, msg) ∷ [], queued 1)

abbrev client_1 : Str
client_1 = codes "c1"

abbrev plus_filter : Str
plus_filter = codes "a/+"

abbrev owned_table : Table
owned_table = (codes "n1", ownership_key plain_codec client_1 plus_filter ∷ []) ∷ []

abbrev rows_of : Str → List StoredSubscription
rows_of id = record { client = client_1; filter = plus_filter; qos = 1 } ∷ []

-- It is given one message.
given_one :
    deliver_offline
      (λ n. false)
      rows_of
      plain_codec
      log_queue
      true
      of_candidates
      owned_table
      []
      (codes "n1")
      (codes "a/b")
      (codes "p")
      2
      []
    ≡ (client_1, record { topic = codes "a/b"; payload = codes "p"; qos = 1 }) ∷ []
unfolding deliver_offline add_candidate ordinary_candidates ownership_key_parts ownership_key
    parts_of add_all
given_one = refl

offline_publish_reaches_example :
    (msgs : List (Str × InflightMessage)) × (deliver_offline
        (λ n. false)
        rows_of
        plain_codec
        log_queue
        true
        of_candidates
        owned_table
        []
        (codes "n1")
        (codes "a/b")
        (codes "p")
        2
        []
      ≡ (enqueue_all log_queue msgs ([], 0)).0)
    × (any (is_copy client_1 (codes "a/b") (codes "p")) msgs ≡ true)
unfolding ownership_key has str_eq shared_filter match_topic
offline_publish_reaches_example =
    offline_publish_reaches plain_codec (λ n. false) rows_of log_queue owned_table [] (codes "n1")
      client_1 plus_filter (codes "a/b") (codes "p") 2 [] refl refl (λ e. ground arith) refl refl
      refl refl (λ n. refl)
