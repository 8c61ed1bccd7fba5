-- ===== src/Broker/OfflineQueue.antt =====
-- internal/broker/redis_session.go, QueueOfflineInflight: a publish for a client without a
-- connection is stored under a packet ID that nothing uses, once for each publish. A transaction
-- whose watched keys nobody touched is one step.
pub mod Commits
pub mod Outcomes
pub mod History
pub mod Fenced
pub mod Progress
use keel_mqtt_gateway.Prelude.{
  ℕ, zero, suc, ◌+◌, Bool, true, false, not, ◌&&◌, ◌||◌, Option, none, some, List, [], ◌∷◌, ◌++◌,
  Str, has_some, ◌==◌, if◌then◌else◌,
}
use keel_mqtt_gateway.Session.Delivery.{InflightMessage, QueueResult, queued, duplicate, failed}
use keel_mqtt_gateway.Broker.PacketIds.{id_of, next_offline_packet_counter}
use keel_mqtt_gateway.Broker.Inflight.{
  publish, Message, format_id, outbound, schema_legacy, ClientKeys, read_schema,
}

-- marshalOfflineInflight.
abbrev pub offline_message : ℕ → InflightMessage → Message
offline_message packet_id msg = record {
  kind = publish;
  packet_id = packet_id;
  topic = msg.topic;
  payload = msg.payload;
  qos = msg.qos;
}

-- The field of an offline message under a schema.
abbrev pub offline_field : ℕ → ℕ → Str
offline_field schema packet_id =
    if schema == schema_legacy then format_id packet_id else outbound ++ format_id packet_id

abbrev pub counter_or_zero : Option ℕ → ℕ
counter_or_zero none = 0
counter_or_zero (some n) = n

-- What an attempt comes to before its transaction is executed.
pub data Attempt (W : Type 0) : Type 0 where
  rejected : Attempt W
  delivered_before : Attempt W
  ready : ℕ → W → Attempt W

-- What comes back of an attempt's commands: all replies, an error before the transaction is
-- executed, or an error where the reply to it is lost.
pub data Reply : Type 0 where
  answered broken lost : Reply

abbrev pub is_broken : Reply → Bool
is_broken broken = true
is_broken _ = false

abbrev pub is_lost : Reply → Bool
is_lost lost = true
is_lost _ = false

-- What goes on around an attempt: its replies, whether a watched key is touched before its
-- transaction, what other nodes do then, and whether the context ends in the wait after it.
pub record Round (W : Type 0) : Type 0 where
  pub reply : Reply
  pub is_touched : Bool
  pub others : W → W
  pub is_cancelled : Bool

module _ (keys : ClientKeys) where
  open keys use {W, counter, is_marked, hget, hlen, set_counter, set_mark, hset}

  -- Is the packet ID the field of a message? Under schema 2 a numeric field reserves it too.
  unfoldable pub is_used : ℕ → W → ℕ → Bool
  is_used schema w packet_id =
      if schema == schema_legacy
      then has_some (hget (format_id packet_id) w)
      else has_some (hget (outbound ++ format_id packet_id) w)
        || has_some (hget (format_id packet_id) w)

  abbrev pub is_delivered : Option Str → W → Bool
  is_delivered none w = false
  is_delivered (some publish_id) w = is_marked publish_id w

  abbrev pub mark_delivered : Option Str → W → W
  mark_delivered none w = w
  mark_delivered (some publish_id) w = set_mark publish_id w

  -- The commands of the transaction, for the counter that was found.
  unfoldable pub store_offline : ℕ → Option Str → InflightMessage → ℕ → W → W
  store_offline schema publish_id msg next w = mark_delivered publish_id (
      hset (offline_field schema (id_of next)) (offline_message (id_of next) msg)
        (set_counter next w))

  abbrev pub with_counter : ℕ → Option Str → InflightMessage → ℕ → W → Attempt W
  unfolding store_offline
  with_counter schema publish_id msg next w =
      if next == 0
      then rejected
      else ready (id_of next) (store_offline schema publish_id msg next w)

  unfoldable pub next_counter : ℕ → W → ℕ
  unfolding is_used next_offline_packet_counter
  next_counter schema w =
      next_offline_packet_counter (not (schema == schema_legacy)) (hlen w) (is_used schema w)
        (counter_or_zero (counter w))

  abbrev pub with_schema : Option ℕ → Option Str → InflightMessage → W → Attempt W
  unfolding next_counter with_counter
  with_schema none publish_id msg w = rejected
  with_schema (some schema) publish_id msg w =
      if is_delivered publish_id w
      then delivered_before
      else with_counter schema publish_id msg (next_counter schema w) w

  -- The function that Watch runs, under the configured schema.
  unfoldable pub try_queue : ℕ → Option Str → InflightMessage → W → Attempt W
  unfolding read_schema with_schema
  try_queue configured publish_id msg w =
      with_schema (read_schema keys configured w) publish_id msg w

  -- What the caller hears of a transaction that was executed.
  abbrev pub heard : Reply → ℕ → QueueResult
  heard lost packet_id = failed
  heard _ packet_id = queued packet_id

  -- One turn of the loop whose commands before the transaction are answered.
  abbrev pub end_attempt : Attempt W → Round W → Bool → (W → W × QueueResult) → W → W × QueueResult
  end_attempt rejected round is_last again w = (w, failed)
  end_attempt delivered_before round is_last again w = (w, duplicate)
  end_attempt (ready packet_id w') round is_last again w =
      if not round.is_touched
      then (w', heard round.reply packet_id)
      else if is_lost round.reply || not is_last && round.is_cancelled
      then (round.others w, failed)
      else again (round.others w)

  abbrev pub one_turn : Attempt W → Round W → Bool → (W → W × QueueResult) → W → W × QueueResult
  one_turn a round is_last again w =
      let ended = end_attempt a round is_last again w in
      if is_broken round.reply then (w, failed) else ended

  -- The loop, with so many attempts left.
  unfoldable pub queue_loop :
      ℕ → Option Str → InflightMessage → (ℕ → Round W) → ℕ → ℕ → W → W × QueueResult
  unfolding try_queue
  queue_loop configured publish_id msg rounds zero attempt w = (w, failed)
  queue_loop configured publish_id msg rounds (suc left) attempt w =
      one_turn (try_queue configured publish_id msg w) (rounds attempt) (left == 0)
        (queue_loop configured publish_id msg rounds left (attempt + 1)) w

  -- QueueOfflineInflight, once it holds the client's lock.
  unfoldable pub queue_offline_inflight :
      ℕ → Option Str → InflightMessage → (ℕ → Round W) → W → W × QueueResult
  unfolding queue_loop
  queue_offline_inflight configured publish_id msg rounds w =
      queue_loop configured publish_id msg rounds 32 0 w
