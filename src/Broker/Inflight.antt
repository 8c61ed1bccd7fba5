-- ===== src/Broker/Inflight.antt =====
-- internal/broker/redis_session.go: the messages in flight of one client, in a hash of Redis whose
-- fields are named by a schema. What every field is called, and the writes, deletions and
-- migrations, which Redis fences with the marker of the schema.
pub mod Fields
pub mod Writes
use keel_mqtt_gateway.Prelude.{
  ℕ, zero, suc, ◌≡◌, Bool, true, false, not, ◌&&◌, ◌||◌, Option, none, some, List, [], ◌∷◌, ◌++◌,
  Str, codes, str_eq, any, has_some, decimal, atoi, ◌==◌, if◌then◌else◌,
}

pub data PacketType : Type 0 where
  publish puback pubrec pubrel pubcomp other_packet : PacketType

-- storage.Message, with what the store looks at.
pub record Message : Type 0 where
  pub kind : PacketType
  pub packet_id : ℕ
  pub topic : Str
  pub payload : Str
  pub qos : ℕ

-- FormatID.
abbrev pub format_id : ℕ → Str
format_id packet_id = decimal packet_id

abbrev pub inbound : Str
inbound = codes "in:"

abbrev pub outbound : Str
outbound = codes "out:"

-- inflightFieldKey, before the packet ID.
abbrev pub written_direction : PacketType → Str
written_direction puback = inbound
written_direction pubrec = inbound
written_direction pubcomp = inbound
written_direction _ = outbound

-- isInboundInflightPacket.
abbrev pub is_inbound_inflight : PacketType → Bool
is_inbound_inflight puback = true
is_inbound_inflight pubrec = true
is_inbound_inflight pubrel = true
is_inbound_inflight pubcomp = true
is_inbound_inflight _ = false

-- inflightCompletionFieldKey, before the packet ID.
abbrev pub completed_direction : PacketType → Str
completed_direction pubrel = inbound
completed_direction _ = outbound

-- inflightDroppedFieldKey, before the packet ID.
abbrev pub dropped_direction : PacketType → Str
dropped_direction kind = if is_inbound_inflight kind then inbound else outbound

abbrev pub is_puback : PacketType → Bool
is_puback puback = true
is_puback _ = false

abbrev pub schema_legacy : ℕ
schema_legacy = 1

abbrev pub schema_v2 : ℕ
schema_v2 = 2

-- schemaVersion, from what is cached.
abbrev pub schema_version : ℕ → ℕ
schema_version cached = if cached == schema_v2 then schema_v2 else schema_legacy

-- The field that a write of the message uses under a schema.
unfoldable pub write_field : ℕ → PacketType → ℕ → Str
write_field schema kind packet_id =
    if schema == schema_v2
    then written_direction kind ++ format_id packet_id
    else format_id packet_id

-- The fields that deleteInflight removes.
unfoldable pub delete_fields : ℕ → Bool → PacketType → ℕ → List Str
delete_fields schema dropped kind packet_id =
    let direction = if dropped then dropped_direction kind else completed_direction kind in
    if schema == schema_v2
    then (direction ++ format_id packet_id) ∷ format_id packet_id ∷ []
    else format_id packet_id ∷ []

-- The keys of one client in Redis: the hash, the packet-ID counter and the marks of delivered
-- publishes, with the marker of the schema, which all clients share. What is written is read back,
-- and each command leaves the other keys and fields alone.
pub record ClientKeys : Type 1 where
  pub W : Type 0
  pub marker : W → Option Str
  pub counter : W → Option ℕ
  pub is_marked : Str → W → Bool
  pub hget : Str → W → Option Message
  pub hlen : W → ℕ
  pub set_marker : Str → W → W
  pub set_counter : ℕ → W → W
  pub set_mark : Str → W → W
  pub hset : Str → Message → W → W
  pub hdel : List Str → W → W
  pub hget-hset :
      (f : Str) (m : Message) (w : W) (g : Str)
      → hget g (hset f m w) ≡ (if str_eq f g then some m else hget g w)
  pub hget-hdel :
      (fs : List Str) (w : W) (g : Str)
      → hget g (hdel fs w) ≡ (if any (λ f. str_eq f g) fs then none else hget g w)
  pub hget-set_marker : (v : Str) (w : W) (g : Str) → hget g (set_marker v w) ≡ hget g w
  pub hget-set_counter : (n : ℕ) (w : W) (g : Str) → hget g (set_counter n w) ≡ hget g w
  pub hget-set_mark : (p : Str) (w : W) (g : Str) → hget g (set_mark p w) ≡ hget g w
  pub marker-set_marker : (v : Str) (w : W) → marker (set_marker v w) ≡ some v
  pub marker-hset : (f : Str) (m : Message) (w : W) → marker (hset f m w) ≡ marker w
  pub marker-hdel : (fs : List Str) (w : W) → marker (hdel fs w) ≡ marker w
  pub marker-set_counter : (n : ℕ) (w : W) → marker (set_counter n w) ≡ marker w
  pub marker-set_mark : (p : Str) (w : W) → marker (set_mark p w) ≡ marker w
  pub is_marked-set_mark :
      (p : Str) (w : W) (q : Str) → is_marked q (set_mark p w) ≡ (str_eq p q || is_marked q w)
  pub is_marked-hset :
      (f : Str) (m : Message) (w : W) (q : Str) → is_marked q (hset f m w) ≡ is_marked q w
  pub is_marked-hdel : (fs : List Str) (w : W) (q : Str) → is_marked q (hdel fs w) ≡ is_marked q w
  pub is_marked-set_counter :
      (n : ℕ) (w : W) (q : Str) → is_marked q (set_counter n w) ≡ is_marked q w
  pub is_marked-set_marker :
      (v : Str) (w : W) (q : Str) → is_marked q (set_marker v w) ≡ is_marked q w
  pub counter-set_counter : (n : ℕ) (w : W) → counter (set_counter n w) ≡ some n
  pub counter-hset : (f : Str) (m : Message) (w : W) → counter (hset f m w) ≡ counter w
  pub counter-set_mark : (p : Str) (w : W) → counter (set_mark p w) ≡ counter w

-- A missing marker reads as schema 1.
abbrev pub marker_text : Option Str → Str
marker_text none = codes "1"
marker_text (some text) = text

-- The schema that a marker names, if it names one.
abbrev pub known_schema : Option ℕ → Option ℕ
known_schema none = none
known_schema (some n) = if (n == schema_legacy) || (n == schema_v2) then some n else none

abbrev pub schema_of : Option Str → Option ℕ
unfolding atoi
schema_of none = some schema_legacy
schema_of (some raw) = known_schema (atoi raw)

-- validateIFMSchema, for a schema that was read.
abbrev pub validated : ℕ → Option ℕ → Option ℕ
validated configured none = none
validated configured (some schema) =
    if not (configured == 0) && not (schema == configured) then none else some schema

abbrev pub retry {ℓ} : {A : Type ℓ} → A → (ℕ → A) → Option ℕ → A
retry stopped again none = stopped
retry stopped again (some schema) = again schema

module _ (keys : ClientKeys) where
  open keys use {W, marker, hget, set_marker, hset, hdel}

  -- Is the marker that of the schema? The test that every fenced script begins with.
  unfoldable pub is_fenced_by : ℕ → W → Bool
  unfolding decimal str_eq
  is_fenced_by schema w = str_eq (marker_text (marker w)) (decimal schema)

  -- schemaFencedHSetScript: the state, and whether the fence let the write through.
  unfoldable pub fenced_hset : ℕ → Str → Message → W → W × Bool
  unfolding is_fenced_by
  fenced_hset schema field m w =
      if not (is_fenced_by schema w) then (w, false) else (hset field m w, true)

  -- schemaFencedHDelScript.
  unfoldable pub fenced_hdel : ℕ → List Str → W → W × Bool
  unfolding is_fenced_by
  fenced_hdel schema fields w =
      if not (is_fenced_by schema w) then (w, false) else (hdel fields w, true)

  abbrev pub copy_unless : Option Message → Str → Message → W → W
  copy_unless none target m w = hset target m w
  copy_unless (some there) target m w = w

  abbrev pub migrate_value : Option Message → Str → Str → W → W
  migrate_value none field target w = w
  migrate_value (some m) field target w = hdel (field ∷ []) (copy_unless (hget target w) target m w)

  -- migrateLegacyInflightFieldScript.
  unfoldable pub migrate_field : Str → Str → W → W
  migrate_field field target w = migrate_value (hget field w) field target w

  unfoldable pub activate_from : Option Str → W → W × Bool
  unfolding str_eq
  activate_from none w = (w, false)
  activate_from (some current) w =
      if not (str_eq current (codes "1")) then (w, false) else (set_marker (codes "2") w, true)

  -- ActivateDirectionalSchema under the configured schema. The marker that its GET answered comes
  -- in: others may have changed the keys before its SET.
  unfoldable pub activate_directional : ℕ → Option Str → W → W × Bool
  unfolding activate_from
  activate_directional configured seen w =
      if not (configured == 0) then (w, false) else activate_from seen w

  -- The write of one message by migrateLegacySchema, which has no fence.
  unfoldable pub migrate_legacy : ℕ → Message → W → W
  unfolding write_field
  migrate_legacy cached m w = hset (write_field (schema_version cached) m.kind m.packet_id) m w

  -- readIFMSchema and validateIFMSchema under the configured schema, 0 for auto: `none` is an error.
  unfoldable pub read_schema : ℕ → W → Option ℕ
  unfolding schema_of
  read_schema configured w = validated configured (schema_of (marker w))

  -- refreshSchemaVersion.
  unfoldable pub refresh_schema : ℕ → W → Option ℕ
  unfolding read_schema
  refresh_schema configured w =
      if not (configured == 0) then some configured else read_schema configured w

  -- The loop of OnQosPublishResult and of deleteInflight, over what one attempt does under a schema,
  -- with so many attempts left. `others` is what other nodes do after a rejected attempt.
  unfoldable pub attempts : (ℕ → W → W × Bool) → (W → W) → ℕ → ℕ → ℕ → W → W × Bool
  unfolding refresh_schema
  attempts attempt others configured zero schema w = (w, false)
  attempts attempt others configured (suc left) schema w =
      let (w', accepted) = attempt schema w in
      let retried =
        retry (others w', false)
          (λ schema'. attempts attempt others configured left schema' (others w'))
          (refresh_schema configured (others w')) in
      if accepted then (w', true) else if not (configured == 0) then (w', false) else retried

  -- OnQosPublishResult, and with it OnQosPublish, from the schema that the hook has cached.
  unfoldable pub on_qos_publish : (W → W) → ℕ → ℕ → Bool → Message → W → W × Bool
  unfolding attempts fenced_hset write_field
  on_qos_publish others configured cached inbound_flow m w =
      let written =
        attempts (λ s. fenced_hset s (write_field s m.kind m.packet_id) m) others configured 2
          (schema_version cached) w in
      if inbound_flow && is_puback m.kind then (w, true) else written

  -- deleteInflight.
  unfoldable pub delete_inflight : (W → W) → ℕ → ℕ → Bool → PacketType → ℕ → W → W × Bool
  unfolding attempts fenced_hdel delete_fields
  delete_inflight others configured cached dropped kind packet_id w =
      attempts (λ s. fenced_hdel s (delete_fields s dropped kind packet_id)) others configured 2
        (schema_version cached) w

  -- OnQosCompleteResult, and with it OnQosComplete.
  unfoldable pub on_qos_complete : (W → W) → ℕ → ℕ → Bool → PacketType → ℕ → W → W × Bool
  unfolding delete_inflight
  on_qos_complete others configured cached inbound_flow kind packet_id w =
      let deleted = delete_inflight others configured cached false kind packet_id w in
      if inbound_flow && is_puback kind then (w, true) else deleted

  -- OnQosDroppedResult, and with it OnQosDropped.
  unfoldable pub on_qos_dropped : (W → W) → ℕ → ℕ → PacketType → ℕ → W → W × Bool
  unfolding delete_inflight
  on_qos_dropped others configured cached kind packet_id w =
      delete_inflight others configured cached true kind packet_id w
