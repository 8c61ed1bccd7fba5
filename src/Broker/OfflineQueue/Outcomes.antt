-- ===== src/Broker/OfflineQueue/Outcomes.antt =====
-- redis_session.go, QueueOfflineInflight: how a call can end, whatever the other nodes do meanwhile.
use keel_mqtt_gateway.Prelude.{
  ℕ, zero, suc, ◌+◌, ◌≡◌, refl, ap, ◌||◌, inl, inr, ◌⊎◌, Bool, true, false, not, ◌&&◌, Option, none,
  some, Str, ◌==◌, if◌then◌else◌, Bool-cases, arith,
}
use keel_mqtt_gateway.Session.Delivery.{InflightMessage, QueueResult, queued, duplicate, failed}
use keel_mqtt_gateway.Broker.PacketIds.{id_of}
use keel_mqtt_gateway.Broker.PacketIds.Search.{IsNextFree, next_counter_lem}
use keel_mqtt_gateway.Broker.Inflight.{schema_legacy, ClientKeys, read_schema}
use keel_mqtt_gateway.Broker.OfflineQueue.{
  counter_or_zero, Attempt, rejected, delivered_before, ready, Round, Reply, answered, broken, lost,
  is_broken, is_lost, heard, one_turn, is_used, is_delivered, with_counter, next_counter,
  with_schema, try_queue, end_attempt, queue_loop, queue_offline_inflight,
}
use keel_mqtt_gateway.Broker.OfflineQueue.Commits.{IsStored, store-IsStored}

-- The counter that the search answers stands for a free ID, unless it is 0.
found_free :
    {P : Type 0} (used : ℕ → Bool) (counter next : ℕ)
    → ((next ≡ 0) × P) ⊎ IsNextFree used counter next
    → (next == 0) ≡ false
    → used (id_of next) ≡ false
found_free used counter next (inl (z, reason)) e = ground arith
found_free used counter next (inr found) e = found.free

module _ (keys : ClientKeys) where
  open keys use {W, marker, counter, is_marked, hget, set_counter, set_mark, hset}

  -- What an attempt came to, and what it rests on.
  pub data Tried (configured : ℕ) (publish_id : Option Str) (msg : InflightMessage) (w : W)
      : Attempt W → Type 0 where
    is_rejected : Tried configured publish_id msg w rejected
    was_delivered :
        is_delivered keys publish_id w ≡ true → Tried configured publish_id msg w delivered_before
    is_ready :
        {packet_id : ℕ} {w' : W}
        → IsStored keys configured publish_id msg packet_id w w'
        → Tried configured publish_id msg w (ready packet_id w')

  with_counter-Tried :
      (configured schema : ℕ) (p : Option Str) (msg : InflightMessage) (w : W) (next : ℕ)
      → read_schema keys configured w ≡ some schema
      → is_delivered keys p w ≡ false
      → ((next == 0) ≡ false → is_used keys schema w (id_of next) ≡ false)
      → Tried configured p msg w (with_counter keys schema p msg next w)
  unfolding with_counter
  with_counter-Tried configured schema p msg w next r d u = elim (Bool-cases (next == 0)) [
    | inl e ↦ rw e is_rejected
    | inr e ↦ rw e (is_ready (store-IsStored keys configured schema p msg next w r d (u e)))
  ]

  next_free :
      (schema : ℕ) (w : W)
      → (next_counter keys schema w == 0) ≡ false
      → is_used keys schema w (id_of (next_counter keys schema w)) ≡ false
  unfolding next_counter
  next_free schema w e =
      found_free (is_used keys schema w) (counter_or_zero (counter w)) (next_counter keys schema w)
        (next_counter_lem (not (schema == schema_legacy)) (keys.hlen w) (is_used keys schema w)
          (counter_or_zero (counter w)))
        e

  unless_delivered :
      (configured : ℕ) (p : Option Str) (msg : InflightMessage) (w : W) (b : Bool) (a : Attempt W)
      → is_delivered keys p w ≡ b
      → (is_delivered keys p w ≡ false → Tried configured p msg w a)
      → Tried configured p msg w (if b then delivered_before else a)
  unless_delivered configured p msg w true a d t = was_delivered d
  unless_delivered configured p msg w false a d t = t d

  with_schema-Tried :
      (configured : ℕ) (p : Option Str) (msg : InflightMessage) (w : W) (o : Option ℕ)
      → read_schema keys configured w ≡ o
      → Tried configured p msg w (with_schema keys o p msg w)
  unfolding with_schema
  with_schema-Tried configured p msg w none r = is_rejected
  with_schema-Tried configured p msg w (some schema) r =
      unless_delivered configured p msg w (is_delivered keys p w)
        (with_counter keys schema p msg (next_counter keys schema w) w) refl
        (λ d.
          with_counter-Tried configured schema p msg w (next_counter keys schema w) r d
            (next_free schema w))

  pub try_queue-Tried :
      (configured : ℕ) (p : Option Str) (msg : InflightMessage) (w : W)
      → Tried configured p msg w (try_queue keys configured p msg w)
  unfolding try_queue
  try_queue-Tried configured p msg w =
      with_schema-Tried configured p msg w (read_schema keys configured w) refl

  -- What other nodes may have done between the attempts.
  pub data Waited (rounds : ℕ → Round W) (w : W) : W → Type 0 where
    at_once : Waited rounds w w
    after_round : {v : W} (k : ℕ) → Waited rounds w v → Waited rounds w ((rounds k).others v)

  -- How a call ends: it stored the message in one step and says so or, where the reply is lost,
  -- fails; or it wrote nothing at all.
  pub data Ended (configured : ℕ) (publish_id : Option Str) (msg : InflightMessage)
      (rounds : ℕ → Round W) (w : W) : W × QueueResult → Type 0 where
    gave_up : {v : W} → Waited rounds w v → Ended configured publish_id msg rounds w (v, failed)
    passed_over :
        {v : W}
        → Waited rounds w v
        → is_delivered keys publish_id v ≡ true
        → Ended configured publish_id msg rounds w (v, duplicate)
    stored_now :
        {v v' : W} {packet_id : ℕ}
        → Waited rounds w v
        → IsStored keys configured publish_id msg packet_id v v'
        → Ended configured publish_id msg rounds w (v', queued packet_id)
    stored_unheard :
        {v v' : W} {packet_id : ℕ} (k : ℕ)
        → is_lost (rounds k).reply ≡ true
        → Waited rounds w v
        → IsStored keys configured publish_id msg packet_id v v'
        → Ended configured publish_id msg rounds w (v', failed)

  heard-Ended :
      (configured : ℕ) (p : Option Str) (msg : InflightMessage) (rounds : ℕ → Round W) (w v v' : W)
      (packet_id k : ℕ) (r : Reply)
      → (rounds k).reply ≡ r
      → Waited rounds w v
      → IsStored keys configured p msg packet_id v v'
      → Ended configured p msg rounds w (v', heard keys r packet_id)
  heard-Ended configured p msg rounds w v v' packet_id k answered e h s = stored_now h s
  heard-Ended configured p msg rounds w v v' packet_id k broken e h s = stored_now h s
  heard-Ended configured p msg rounds w v v' packet_id k lost e h s =
      stored_unheard k (ap is_lost e) h s

  end_attempt-Ended :
      (configured : ℕ) (p : Option Str) (msg : InflightMessage) (rounds : ℕ → Round W) (w : W)
      (a : Attempt W) (k : ℕ) (is_last : Bool) (again : W → W × QueueResult) (v : W)
      → Tried configured p msg v a
      → Waited rounds w v
      → ((u : W) → Waited rounds w u → Ended configured p msg rounds w (again u))
      → Ended configured p msg rounds w (end_attempt keys a (rounds k) is_last again v)
  end_attempt-Ended configured p msg rounds w _ k is_last again v is_rejected h next = gave_up h
  end_attempt-Ended configured p msg rounds w _ k is_last again v (was_delivered d) h next =
      passed_over h d
  end_attempt-Ended configured p msg rounds w _ k is_last again v (is_ready {packet_id} {w'} s) h
        next =
      elim (Bool-cases (rounds k).is_touched) [
        | inl t ↦
            elim (Bool-cases (is_lost (rounds k).reply || not is_last && (rounds k).is_cancelled)) [
              | inl c ↦ rw (t, c) (gave_up (after_round k h))
              | inr c ↦ rw (t, c) (next ((rounds k).others v) (after_round k h))
            ]
        | inr t ↦
            rw t (heard-Ended configured p msg rounds w v w' packet_id k (rounds k).reply refl h s)
      ]

  one_turn-Ended :
      (configured : ℕ) (p : Option Str) (msg : InflightMessage) (rounds : ℕ → Round W) (w : W)
      (a : Attempt W) (k : ℕ) (is_last : Bool) (again : W → W × QueueResult) (v : W)
      → Tried configured p msg v a
      → Waited rounds w v
      → ((u : W) → Waited rounds w u → Ended configured p msg rounds w (again u))
      → Ended configured p msg rounds w (one_turn keys a (rounds k) is_last again v)
  one_turn-Ended configured p msg rounds w a k is_last again v t h next =
      elim (Bool-cases (is_broken (rounds k).reply)) [
        | inl b ↦ rw b (gave_up h)
        | inr b ↦ rw b (end_attempt-Ended configured p msg rounds w a k is_last again v t h next)
      ]

  queue_loop-Ended :
      (configured : ℕ) (p : Option Str) (msg : InflightMessage) (rounds : ℕ → Round W) (w : W)
      (left attempt : ℕ) (v : W)
      → Waited rounds w v
      → Ended configured p msg rounds w (queue_loop keys configured p msg rounds left attempt v)
  unfolding queue_loop
  queue_loop-Ended configured p msg rounds w zero attempt v h = gave_up h
  queue_loop-Ended configured p msg rounds w (suc left) attempt v h =
      one_turn-Ended configured p msg rounds w (try_queue keys configured p msg v) attempt
        (left == 0) (queue_loop keys configured p msg rounds left (attempt + 1)) v
        (try_queue-Tried configured p msg v) h
        (λ u g. queue_loop-Ended configured p msg rounds w left (attempt + 1) u g)

  -- Whatever other nodes do between its attempts, a call of QueueOfflineInflight gives up or passes
  -- the publish over as delivered, and has written nothing; or in one step it stored the message in
  -- the field of a packet ID from 1 to 65535, which held none, changed no other field, and marked
  -- the publish, which was not marked, and then it answers that ID, or an error where the reply to
  -- the transaction was lost.
  pub queue_lem :
      (configured : ℕ) (p : Option Str) (msg : InflightMessage) (rounds : ℕ → Round W) (w : W)
      → Ended configured p msg rounds w (queue_offline_inflight keys configured p msg rounds w)
  unfolding queue_offline_inflight
  queue_lem configured p msg rounds w = queue_loop-Ended configured p msg rounds w 32 0 w at_once
