-- ===== src/Broker/OfflineQueue/Commits.antt =====
-- redis_session.go, QueueOfflineInflight: what a transaction that is executed has changed.
use keel_mqtt_gateway.Prelude.{
  ℕ, ◌≤◌, ◌≡◌, refl, ◌∙◌, false, ◌||◌, Option, none, some, Str, str_eq, str_eq_refl, has_some,
  if◌then◌else◌, arith,
}
use keel_mqtt_gateway.Session.Delivery.{InflightMessage}
use keel_mqtt_gateway.Broker.PacketIds.{packet_ids, id_of}
use keel_mqtt_gateway.Broker.Inflight.{ClientKeys, read_schema}
use keel_mqtt_gateway.Broker.OfflineQueue.{
  offline_message, offline_field, is_used, is_delivered, mark_delivered, store_offline,
}

module _ (keys : ClientKeys) where
  open keys use {W, marker, counter, is_marked, hget, set_counter, set_mark, hset}

  -- A message for the publish was stored in one step under an ID that was free, and nothing else
  -- was written over.
  pub record IsStored (configured : ℕ) (publish_id : Option Str) (msg : InflightMessage)
      (packet_id : ℕ) (v w : W) : Type 0 where
    pub schema : ℕ
    pub read : read_schema keys configured v ≡ some schema
    pub low : 1 ≤ packet_id
    pub high : packet_id ≤ packet_ids
    pub was_free : hget (offline_field schema packet_id) v ≡ none
    pub stored : hget (offline_field schema packet_id) w ≡ some (offline_message packet_id msg)
    pub kept : (g : Str) → str_eq (offline_field schema packet_id) g ≡ false → hget g w ≡ hget g v
    pub undelivered : is_delivered keys publish_id v ≡ false
    pub marks :
        (q : Str)
        → is_marked q w
          ≡ (is_marked q v || (elim publish_id [ none ↦ false | some p ↦ str_eq p q ]))
    pub same_marker : marker w ≡ marker v

  hget-mark : (p : Option Str) (w : W) (g : Str) → hget g (mark_delivered keys p w) ≡ hget g w
  hget-mark none w g = refl
  hget-mark (some p) w g = keys.hget-set_mark p w g

  is_marked-mark :
      (p : Option Str) (w : W) (q : Str)
      → is_marked q (mark_delivered keys p w)
        ≡ (is_marked q w || (elim p [ none ↦ false | some p' ↦ str_eq p' q ]))
  is_marked-mark none w q = ground arith
  is_marked-mark (some p) w q = keys.is_marked-set_mark p w q ∙ ground arith

  marker-mark : (p : Option Str) (w : W) → marker (mark_delivered keys p w) ≡ marker w
  marker-mark none w = refl
  marker-mark (some p) w = keys.marker-set_mark p w

  hget-store :
      (schema : ℕ) (p : Option Str) (msg : InflightMessage) (next : ℕ) (w : W) (g : Str)
      → hget g (store_offline keys schema p msg next w) ≡ (
          if str_eq (offline_field schema (id_of next)) g
          then some (offline_message (id_of next) msg)
          else hget g w)
  unfolding store_offline
  hget-store schema p msg next w g =
      let f = offline_field schema (id_of next) in
      let m = offline_message (id_of next) msg in
      hget-mark p (hset f m (set_counter next w)) g
      ∙ keys.hget-hset f m (set_counter next w) g
      ∙ rw (keys.hget-set_counter next w g) refl

  store_marks :
      (schema : ℕ) (p : Option Str) (msg : InflightMessage) (next : ℕ) (w : W) (q : Str)
      → is_marked q (store_offline keys schema p msg next w)
        ≡ (is_marked q w || (elim p [ none ↦ false | some p' ↦ str_eq p' q ]))
  unfolding store_offline
  store_marks schema p msg next w q =
      let f = offline_field schema (id_of next) in
      let m = offline_message (id_of next) msg in
      is_marked-mark p (hset f m (set_counter next w)) q
      ∙ rw (keys.is_marked-hset f m (set_counter next w) q, keys.is_marked-set_counter next w q)
          refl

  store_marker :
      (schema : ℕ) (p : Option Str) (msg : InflightMessage) (next : ℕ) (w : W)
      → marker (store_offline keys schema p msg next w) ≡ marker w
  unfolding store_offline
  store_marker schema p msg next w =
      let f = offline_field schema (id_of next) in
      let m = offline_message (id_of next) msg in
      marker-mark p (hset f m (set_counter next w))
      ∙ keys.marker-hset f m (set_counter next w)
      ∙ keys.marker-set_counter next w

  free_field :
      (schema packet_id : ℕ) (w : W)
      → is_used keys schema w packet_id ≡ false
      → has_some (hget (offline_field schema packet_id) w) ≡ false
  unfolding is_used
  free_field schema packet_id w h = ground arith

  none_there : {A : Type 0} (o : Option A) → has_some o ≡ false → o ≡ none
  none_there none h = refl
  none_there (some a) h = cc

  pub store-IsStored :
      (configured schema : ℕ) (p : Option Str) (msg : InflightMessage) (next : ℕ) (w : W)
      → read_schema keys configured w ≡ some schema
      → is_delivered keys p w ≡ false
      → is_used keys schema w (id_of next) ≡ false
      → IsStored configured p msg (id_of next) w (store_offline keys schema p msg next w)
  store-IsStored configured schema p msg next w r d u =
      let f = offline_field schema (id_of next) in
      let m = offline_message (id_of next) msg in
      record {
        schema = schema;
        read = r;
        low = omega arith;
        high = omega arith;
        was_free = none_there (hget f w) (free_field schema (id_of next) w u);
        stored = hget-store schema p msg next w f ∙ rw (str_eq_refl f) refl;
        kept = λ g h. hget-store schema p msg next w g ∙ rw h refl;
        undelivered = d;
        marks = λ q. store_marks schema p msg next w q;
        same_marker = store_marker schema p msg next w;
      }
