-- ===== src/Broker/OfflineQueue/History.antt =====
-- redis_session.go: what any interleaving of the steps of all nodes keeps, on the keys of one
-- client. The marks of delivered publishes do not expire here.
use keel_mqtt_gateway.Prelude.{
  ℕ, ◌+◌, ◌≤◌, ◌≡◌, refl, ◌∙◌, inl, inr, subst, Bool, true, false, not, if_cases, ◌&&◌, ◌==◌,
  Option, none, some, List, [], ◌∷◌, Str, codes, str_eq, str_eq_iff, if◌then◌else◌, Bool-cases,
  arith,
}
use keel_mqtt_gateway.Session.Delivery.{InflightMessage}
use keel_mqtt_gateway.Broker.Inflight.{
  PacketType, Message, schema_version, write_field, delete_fields, ClientKeys, fenced_hset,
  fenced_hdel, is_fenced_by, copy_unless, migrate_value, migrate_field, activate_directional,
  activate_from, migrate_legacy,
}
use keel_mqtt_gateway.Broker.OfflineQueue.{Attempt, rejected, delivered_before, ready, try_queue}
use keel_mqtt_gateway.Broker.OfflineQueue.Outcomes.{
  Tried, is_rejected, was_delivered, is_ready, try_queue-Tried,
}

-- A step of some node: a fenced write or deletion under the schema that its hook has cached, the
-- migration of a field, an offline publish, the activation of schema 2 after some reading of the
-- marker, or the unfenced write of a message out of the first layout.
pub data Op : Type 0 where
  wrote : ℕ → Message → Op
  deleted : ℕ → Bool → PacketType → ℕ → Op
  migrated : Str → PacketType → ℕ → Op
  offered : ℕ → Option Str → InflightMessage → Op
  activated : ℕ → Option Str → Op
  moved : ℕ → Message → Op

abbrev pub after_attempt : {W : Type 0} → Attempt W → W → W
after_attempt rejected w = w
after_attempt delivered_before w = w
after_attempt (ready packet_id w') w = w'

abbrev pub is_ready_attempt : {W : Type 0} → Attempt W → Bool
is_ready_attempt rejected = false
is_ready_attempt delivered_before = false
is_ready_attempt (ready packet_id w') = true

abbrev pub is_for : Str → Option Str → Bool
is_for p none = false
is_for p (some q) = str_eq q p

module _ (keys : ClientKeys) where
  open keys use {W, marker, is_marked, hget, hset, hdel}

  unfoldable pub step : Op → W → W
  unfolding fenced_hset fenced_hdel migrate_field activate_directional migrate_legacy try_queue
  step (wrote cached m) w =
      (fenced_hset keys (schema_version cached)
        (write_field (schema_version cached) m.kind m.packet_id) m w).0
  step (deleted cached dropped kind packet_id) w =
      (fenced_hdel keys (schema_version cached)
        (delete_fields (schema_version cached) dropped kind packet_id) w).0
  step (migrated field kind packet_id) w = migrate_field keys field (write_field 2 kind packet_id) w
  step (offered configured p msg) w = after_attempt (try_queue keys configured p msg w) w
  step (activated configured seen) w = (activate_directional keys configured seen w).0
  step (moved cached m) w = migrate_legacy keys cached m w

  unfoldable pub run_ops : List Op → W → W
  unfolding step
  run_ops [] w = w
  run_ops (op ∷ ops) w = run_ops ops (step op w)

  -- Does the step store a message for the publish?
  abbrev pub stores : Str → Op → W → Bool
  unfolding try_queue
  stores p (offered configured q msg) w =
      is_for p q && is_ready_attempt (try_queue keys configured q msg w)
  stores p _ w = false

  unfoldable pub times_stored : Str → List Op → W → ℕ
  unfolding stores step
  times_stored p [] w = 0
  times_stored p (op ∷ ops) w = (if stores p op w then 1 else 0) + times_stored p ops (step op w)

  marks-fenced_hset :
      (schema : ℕ) (f : Str) (m : Message) (w : W) (p : Str)
      → is_marked p (fenced_hset keys schema f m w).0 ≡ is_marked p w
  unfolding fenced_hset
  marks-fenced_hset schema f m w p = elim (Bool-cases (is_fenced_by keys schema w)) [
    | inl e ↦ rw e (keys.is_marked-hset f m w p)
    | inr e ↦ rw e refl
  ]

  marks-fenced_hdel :
      (schema : ℕ) (fs : List Str) (w : W) (p : Str)
      → is_marked p (fenced_hdel keys schema fs w).0 ≡ is_marked p w
  unfolding fenced_hdel
  marks-fenced_hdel schema fs w p = elim (Bool-cases (is_fenced_by keys schema w)) [
    | inl e ↦ rw e (keys.is_marked-hdel fs w p)
    | inr e ↦ rw e refl
  ]

  marks-copy :
      (o : Option Message) (target : Str) (m : Message) (w : W) (p : Str)
      → is_marked p (copy_unless keys o target m w) ≡ is_marked p w
  marks-copy none target m w p = keys.is_marked-hset target m w p
  marks-copy (some there) target m w p = refl

  marks-migrate :
      (o : Option Message) (field target : Str) (w : W) (p : Str)
      → is_marked p (migrate_value keys o field target w) ≡ is_marked p w
  marks-migrate none field target w p = refl
  marks-migrate (some m) field target w p =
      keys.is_marked-hdel (field ∷ []) (copy_unless keys (hget target w) target m w) p
      ∙ marks-copy (hget target w) target m w p

  marks-activate :
      (o : Option Str) (w : W) (p : Str) → is_marked p (activate_from keys o w).0 ≡ is_marked p w
  unfolding activate_from
  marks-activate none w p = refl
  marks-activate (some current) w p = elim (Bool-cases (str_eq current (codes "1"))) [
    | inl e ↦ rw e (keys.is_marked-set_marker (codes "2") w p)
    | inr e ↦ rw e refl
  ]

  marks-activate_directional :
      (configured : ℕ) (seen : Option Str) (w : W) (p : Str)
      → is_marked p (activate_directional keys configured seen w).0 ≡ is_marked p w
  unfolding activate_directional
  marks-activate_directional configured seen w p =
      if_cases (λ r. is_marked p r.0 ≡ is_marked p w) (not (configured == 0)) (w, false)
        (activate_from keys seen w) (λ _. refl) (λ _. marks-activate seen w p)

  -- What a step does to the mark of a publish: it keeps it, and where it stores a message for the
  -- publish, that was not marked and is marked then.
  abbrev Marking : Str → Bool → W → W → Type 0
  Marking p stored w w' =
      (is_marked p w ≡ true → is_marked p w' ≡ true)
      × (stored ≡ true → (is_marked p w ≡ false) × (is_marked p w' ≡ true))

  unmarking : (p : Str) (w w' : W) → is_marked p w' ≡ is_marked p w → Marking p false w w'
  unmarking p w w' e = (λ h. e ∙ h, λ h. cc)

  offered-Marking :
      (configured : ℕ) (q : Option Str) (msg : InflightMessage) (w : W) (p : Str) (a : Attempt W)
      → Tried keys configured q msg w a
      → Marking p (is_for p q && is_ready_attempt a) w (after_attempt a w)
  offered-Marking configured q msg w p _ is_rejected = ground arith
  offered-Marking configured q msg w p _ (was_delivered d) = ground arith
  offered-Marking configured none msg w p _ (is_ready {w'} s) =
      (λ h. s.marks p ∙ rw h refl, λ h. cc)
  offered-Marking configured (some r) msg w p _ (is_ready {w'} s) = (
    λ h. s.marks p ∙ rw h refl,
    λ h.
        let same : r ≡ p = (str_eq_iff r p).0 (ground arith) in
        (
          subst (λ t. is_marked t w ≡ false) same s.undelivered,
          s.marks p ∙ rw ((str_eq_iff r p).1 same) (ground arith),
        ),
  )

  step-Marking : (op : Op) (w : W) (p : Str) → Marking p (stores p op w) w (step op w)
  unfolding step stores
  step-Marking (wrote cached m) w p = unmarking p w _ (
      marks-fenced_hset (schema_version cached)
        (write_field (schema_version cached) m.kind m.packet_id) m w p)
  step-Marking (deleted cached dropped kind packet_id) w p = unmarking p w _ (
      marks-fenced_hdel (schema_version cached)
        (delete_fields (schema_version cached) dropped kind packet_id) w p)
  step-Marking (migrated field kind packet_id) w p =
      unfold migrate_field in
      unmarking p w _ (marks-migrate (hget field w) field (write_field 2 kind packet_id) w p)
  step-Marking (offered configured q msg) w p =
      offered-Marking configured q msg w p (try_queue keys configured q msg w)
        (try_queue-Tried keys configured q msg w)
  step-Marking (activated configured seen) w p =
      unmarking p w _ (marks-activate_directional configured seen w p)
  step-Marking (moved cached m) w p =
      unfold migrate_legacy in
      unmarking p w _
        (keys.is_marked-hset (write_field (schema_version cached) m.kind m.packet_id) m w p)

  -- Through any interleaving of the steps of all nodes, while no mark expires, at most one message
  -- is stored for a publish and a client, and none once the publish is marked.
  pub at_most_once :
      (ops : List Op) (w : W) (p : Str)
      → (times_stored p ops w ≤ 1) × (is_marked p w ≡ true → times_stored p ops w ≡ 0)
  unfolding times_stored
  at_most_once [] w p = ground arith
  at_most_once (op ∷ ops) w p =
      let (once, never) = at_most_once ops (step op w) p in
      let (keeps, marks) = step-Marking op w p in
      elim (Bool-cases (stores p op w)) [
        | inl e ↦ rw e (ground (arith, never, marks))
        | inr e ↦ rw e (ground (arith, once, never, keeps))
      ]
