-- ===== src/Broker/OfflineQueue/Progress.antt =====
-- redis_session.go, QueueOfflineInflight: while an ID is free and nobody interferes, the message is
-- stored.
use keel_mqtt_gateway.Prelude.{
  ℕ, ◌≤◌, ◌≡◌, refl, ap, ◌∙◌, inl, inr, ◌⊎◌, Bool, true, false, not, ◌&&◌, Option, some, Str, leb,
  ◌==◌, if◌then◌else◌, arith,
}
use keel_mqtt_gateway.Session.Delivery.{InflightMessage, QueueResult, queued}
use keel_mqtt_gateway.Broker.PacketIds.{packet_ids, id_of}
use keel_mqtt_gateway.Broker.PacketIds.Search.{IsNextFree, next_counter_lem}
use keel_mqtt_gateway.Broker.Inflight.{schema_legacy, ClientKeys, read_schema}
use keel_mqtt_gateway.Broker.OfflineQueue.{
  Attempt, delivered_before, ready, store_offline, counter_or_zero, Round, answered, is_used,
  is_delivered, with_counter, next_counter, with_schema, try_queue, one_turn, queue_loop,
  queue_offline_inflight,
}

if_false {ℓ} : {A : Type ℓ} (b : Bool) (x y : A) → b ≡ false → (if b then x else y) ≡ y
if_false b x y h = rw h refl

-- A free ID and a hash that is not full leave the search no reason to fail.
search_succeeds :
    (prefixed : Bool) (fields : ℕ) (used : ℕ → Bool) (counter next id : ℕ)
    → not prefixed && leb packet_ids fields ≡ false
    → 1 ≤ id
    → id ≤ packet_ids
    → used id ≡ false
    → ((next ≡ 0)
        × (((prefixed ≡ false) × (packet_ids ≤ fields))
            ⊎ ((i : ℕ) → 1 ≤ i → i ≤ packet_ids → used i ≡ true)))
      ⊎ IsNextFree used counter next
    → (next == 0) ≡ false
search_succeeds prefixed fields used counter next id room l u free (inl (z, inl (p, full))) =
    let is_full : leb packet_ids fields ≡ true = ground (arith, full) in ground arith
search_succeeds prefixed fields used counter next id room l u free (inl (z, inr all)) =
    let taken : used id ≡ true = all id l u in cc
search_succeeds prefixed fields used counter next id room l u free (inr found) =
    let later = found.later in ground arith

module _ (keys : ClientKeys) where
  open keys use {W, hlen, counter}

  next_found :
      (schema : ℕ) (w : W)
      → let next = next_counter keys schema w in
        ((next ≡ 0)
          × (((not (schema == schema_legacy) ≡ false) × (packet_ids ≤ hlen w))
              ⊎ ((i : ℕ) → 1 ≤ i → i ≤ packet_ids → is_used keys schema w i ≡ true)))
        ⊎ IsNextFree (is_used keys schema w) (counter_or_zero (counter w)) next
  unfolding next_counter
  next_found schema w =
      next_counter_lem (not (schema == schema_legacy)) (hlen w) (is_used keys schema w)
        (counter_or_zero (counter w))

  with_counter_ready :
      (schema : ℕ) (p : Option Str) (msg : InflightMessage) (next : ℕ) (w : W)
      → (next == 0) ≡ false
      → with_counter keys schema p msg next w
        ≡ ready (id_of next) (store_offline keys schema p msg next w)
  unfolding with_counter
  with_counter_ready schema p msg next w h = rw h refl

  try_queue_ready :
      (configured schema : ℕ) (p : Option Str) (msg : InflightMessage) (w : W)
      → read_schema keys configured w ≡ some schema
      → is_delivered keys p w ≡ false
      → (next_counter keys schema w == 0) ≡ false
      → try_queue keys configured p msg w
        ≡ ready
            (id_of (next_counter keys schema w))
            (store_offline keys schema p msg (next_counter keys schema w) w)
  unfolding try_queue with_schema
  try_queue_ready configured schema p msg w r d found =
      ap (λ o. with_schema keys o p msg w) r
      ∙ if_false (is_delivered keys p w) delivered_before
          (with_counter keys schema p msg (next_counter keys schema w) w) d
      ∙ with_counter_ready schema p msg (next_counter keys schema w) w found

  end_ready :
      (a : Attempt W) (packet_id : ℕ) (w' : W) (round : Round W) (is_last : Bool)
      (again : W → W × QueueResult) (w : W)
      → a ≡ ready packet_id w'
      → round.is_touched ≡ false
      → round.reply ≡ answered
      → (one_turn keys a round is_last again w).1 ≡ queued packet_id
  end_ready a packet_id w' round is_last again w e t r = rw (e, t, r) refl

  -- Where the schema can be read, the publish is not marked, some ID is free, the legacy hash is
  -- not full, nobody touches the keys during the first attempt and its replies all come back,
  -- QueueOfflineInflight queues the message.
  pub queue_progress :
      (configured schema id : ℕ) (p : Option Str) (msg : InflightMessage) (rounds : ℕ → Round W)
      (w : W)
      → read_schema keys configured w ≡ some schema
      → is_delivered keys p w ≡ false
      → (schema == schema_legacy) && leb packet_ids (hlen w) ≡ false
      → 1 ≤ id
      → id ≤ packet_ids
      → is_used keys schema w id ≡ false
      → (rounds 0).is_touched ≡ false
      → (rounds 0).reply ≡ answered
      → (queue_offline_inflight keys configured p msg rounds w).1
        ≡ queued (id_of (next_counter keys schema w))
  unfolding queue_offline_inflight queue_loop
  queue_progress configured schema id p msg rounds w r d room l u free t a =
      let next = next_counter keys schema w in
      let found : (next == 0) ≡ false =
        search_succeeds (not (schema == schema_legacy)) (hlen w) (is_used keys schema w)
          (counter_or_zero (counter w)) next id (ground (arith, room)) l u free
          (next_found schema w) in
      end_ready (try_queue keys configured p msg w) (id_of next)
        (store_offline keys schema p msg next w) (rounds 0) false
        (queue_loop keys configured p msg rounds 31 1) w
        (try_queue_ready configured schema p msg w r d found) t a
