-- ===== src/Examples/Queues.antt =====
-- The keys of one client in a Redis whose hash is a function, with messages in flight.
use keel_mqtt_gateway.Prelude.{
  ℕ, zero, suc, arith, ◌≤◌, ◌≡◌, refl, ◌⊎◌, Bool, true, false, ◌||◌, Option, none, some, List, [],
  ◌∷◌, ◌++◌, Str, codes, str_eq, any, decimal, if◌then◌else◌,
}
use keel_mqtt_gateway.Session.Delivery.{InflightMessage, queued}
use keel_mqtt_gateway.Broker.PacketIds.{packet_ids, id_of, next_offline_packet_counter}
use keel_mqtt_gateway.Broker.PacketIds.Search.{IsNextFree, next_counter_lem}
use keel_mqtt_gateway.Broker.Inflight.{
  Message, publish, puback, pubrel, pubcomp, format_id, inbound, outbound, write_field, ClientKeys,
  read_schema, on_qos_publish, on_qos_complete, on_qos_dropped,
}
use keel_mqtt_gateway.Broker.Inflight.Writes.{marked_2, alone}
use keel_mqtt_gateway.Broker.Inflight.Fields.{
  acknowledged, is_pubrel, complete_lem, drop_lem, resent_pubcomp,
}
use keel_mqtt_gateway.Broker.OfflineQueue.{
  Round, answered, lost, next_counter, is_used, queue_offline_inflight,
}
use keel_mqtt_gateway.Broker.OfflineQueue.Outcomes.{Ended, queue_lem}
use keel_mqtt_gateway.Broker.OfflineQueue.Progress.{queue_progress}
use keel_mqtt_gateway.Broker.OfflineQueue.History.{
  Op, wrote, offered, activated, moved, run_ops, times_stored, at_most_once,
}
use keel_mqtt_gateway.Broker.OfflineQueue.Fenced.{no_new_numbers}

record Keys : Type 0 where
  marker : Option Str
  counter : Option ℕ
  marks : Str → Bool
  fields : Str → Option Message

abbrev keys : ClientKeys
keys = record {
  W = Keys;
  marker = λ w. w.marker;
  counter = λ w. w.counter;
  is_marked = λ p w. w.marks p;
  hget = λ g w. w.fields g;
  hlen = λ w. 0;
  set_marker = λ v w. record w { marker = some v };
  set_counter = λ n w. record w { counter = some n };
  set_mark = λ p w. record w { marks = λ q. str_eq p q || w.marks q };
  hset = λ f m w. record w { fields = λ g. if str_eq f g then some m else w.fields g };
  hdel = λ fs w. record w { fields = λ g. if any (λ f. str_eq f g) fs then none else w.fields g };
  hget-hset = λ f m w g. refl;
  hget-hdel = λ fs w g. refl;
  hget-set_marker = λ v w g. refl;
  hget-set_counter = λ n w g. refl;
  hget-set_mark = λ p w g. refl;
  marker-set_marker = λ v w. refl;
  marker-hset = λ f m w. refl;
  marker-hdel = λ fs w. refl;
  marker-set_counter = λ n w. refl;
  marker-set_mark = λ p w. refl;
  is_marked-set_mark = λ p w q. refl;
  is_marked-hset = λ f m w q. refl;
  is_marked-hdel = λ fs w q. refl;
  is_marked-set_counter = λ n w q. refl;
  is_marked-set_marker = λ v w q. refl;
  counter-set_counter = λ n w. refl;
  counter-hset = λ f m w. refl;
  counter-set_mark = λ p w. refl;
}

-- Schema 2, and an outbound PUBREL under the ID 5.
abbrev sent_pubrel : Message
sent_pubrel = record { kind = pubrel; packet_id = 5; topic = []; payload = []; qos = 2 }

abbrev sent_publish : Message
sent_publish = record { kind = publish; packet_id = 5; topic = codes "t"; payload = []; qos = 1 }

abbrev sent_pubcomp : Message
sent_pubcomp = record { kind = pubcomp; packet_id = 5; topic = []; payload = []; qos = 2 }

abbrev second : Keys
second = record {
  marker = some (codes "2");
  counter = some 4;
  marks = λ q. false;
  fields = λ g. none;
}

next_counter_lem_example :
    let next = next_offline_packet_counter true 0 (λ id. false) 65534 in
    ((next ≡ 0)
      × (((true ≡ false) × (packet_ids ≤ 0))
          ⊎ ((id : ℕ) → 1 ≤ id → id ≤ packet_ids → false ≡ true)))
    ⊎ IsNextFree (λ id. false) 65534 next
next_counter_lem_example = next_counter_lem true 0 (λ id. false) 65534

complete_lem_example :
    let w1 = (on_qos_publish keys (alone keys) 0 1 false sent_publish second).0 in
    let w2 = (on_qos_complete keys (alone keys) 0 2 false puback 5 w1).0 in
    (keys.hget (write_field 2 publish 5) w2 ≡ none)
    × ((g : Str)
        → str_eq (write_field 2 publish 5) g ≡ false
        → str_eq (format_id 5) g ≡ false
        → keys.hget g w2 ≡ keys.hget g second)
complete_lem_example = complete_lem keys 1 2 sent_publish second marked_2 acknowledged

drop_lem_example :
    let w1 = (on_qos_publish keys (alone keys) 0 2 false sent_pubrel second).0 in
    let w2 = (on_qos_dropped keys (alone keys) 0 2 pubrel 5 w1).0 in
    (keys.hget (write_field 2 pubrel 5) w2 ≡ (if is_pubrel pubrel then some sent_pubrel else none))
    × (is_pubrel pubrel ≡ true → keys.hget (inbound ++ format_id 5) w2 ≡ none)
drop_lem_example = drop_lem keys 2 2 sent_pubrel second marked_2

resent_pubcomp_example :
    let w1 = (on_qos_publish keys (alone keys) 0 2 true sent_pubcomp second).0 in
    let w2 = (on_qos_complete keys (alone keys) 0 2 true pubcomp 5 w1).0 in
    (keys.hget (inbound ++ format_id 5) w2 ≡ some sent_pubcomp)
    × (keys.hget (outbound ++ format_id 5) w2 ≡ none)
resent_pubcomp_example = resent_pubcomp keys 2 2 sent_pubcomp second marked_2 refl

abbrev offer : InflightMessage
offer = record { topic = codes "t"; payload = codes "x"; qos = 1 }

-- The first transaction is touched by another node, the reply to the next is lost.
abbrev one_conflict : ℕ → Round Keys
one_conflict zero = record {
  reply = answered;
  is_touched = true;
  others = λ w. w;
  is_cancelled = false;
}
one_conflict (suc n) = record {
  reply = lost;
  is_touched = false;
  others = λ w. w;
  is_cancelled = false;
}

abbrev no_conflict : ℕ → Round Keys
no_conflict n = record {
  reply = answered;
  is_touched = false;
  others = λ w. w;
  is_cancelled = false;
}

queue_lem_example :
    Ended keys 0
      (some (codes "p"))
      offer
      one_conflict
      second
      (queue_offline_inflight keys 0 (some (codes "p")) offer one_conflict second)
queue_lem_example = queue_lem keys 0 (some (codes "p")) offer one_conflict second

queue_progress_example :
    (queue_offline_inflight keys 0 (some (codes "p")) offer no_conflict second).1
    ≡ queued (id_of (next_counter keys 2 second))
unfolding read_schema is_used
queue_progress_example =
    queue_progress keys 0 2 7 (some (codes "p")) offer no_conflict second refl refl refl
      (omega arith) (omega arith) refl refl refl

-- Two nodes offer the same publish.
abbrev twice : List Op
twice =
    offered 0 (some (codes "p")) offer
    ∷ wrote 1 sent_publish
    ∷ offered 0 (some (codes "p")) offer
    ∷ []

at_most_once_example :
    (times_stored keys (codes "p") twice second ≤ 1)
    × (second.marks (codes "p") ≡ true → times_stored keys (codes "p") twice second ≡ 0)
at_most_once_example = at_most_once keys twice second (codes "p")

-- A number that was there before the activation.
abbrev mixed : Keys
mixed = record second { fields = λ g. if str_eq (decimal 9) g then some sent_publish else none }

-- A second activation, and a write out of the first layout under schema 2.
abbrev with_activation : List Op
with_activation = activated 0 (some (codes "1")) ∷ moved 2 sent_publish ∷ twice

-- A hook that still has schema 1 cached writes a number.
moved_late :
    (run_ops keys (moved 1 sent_publish ∷ []) second).fields (decimal 5) ≡ some sent_publish
unfolding run_ops str_eq
moved_late = refl

no_new_numbers_example : mixed.fields (decimal 9) ≡ some sent_publish
unfolding run_ops str_eq
no_new_numbers_example = no_new_numbers keys with_activation mixed 9 sent_publish refl marked_2 refl
