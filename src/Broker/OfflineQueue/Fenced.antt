-- ===== src/Broker/OfflineQueue/Fenced.antt =====
-- redis_session.go: what the fence of schema 2 promises, over the steps of all nodes.
use keel_mqtt_gateway.Prelude.{
  ℕ, ◌≡◌, refl, sym, ap, ◌∙◌, inl, inr, subst, if_cases, Bool, false, not, ◌==◌, any, codes, Option,
  none, some, List, [], ◌∷◌, Str, str_eq, str_eq_comm, decimal, Bool-cases, arith,
}
use keel_mqtt_gateway.Session.Delivery.{InflightMessage}
use keel_mqtt_gateway.Broker.Inflight.{
  PacketType, publish, puback, pubrec, pubrel, pubcomp, other_packet, Message, format_id,
  schema_version, write_field, delete_fields, ClientKeys, is_fenced_by, fenced_hset, fenced_hdel,
  copy_unless, migrate_value, migrate_field, activate_from, activate_directional, migrate_legacy,
  validated, read_schema,
}
use keel_mqtt_gateway.Broker.Inflight.Writes.{
  Marked, marked_2, Marked-schema_of, fenced-Marked, ==→≡,
}
use keel_mqtt_gateway.Broker.Inflight.Fields.{not_number}
use keel_mqtt_gateway.Broker.OfflineQueue.{Attempt, offline_field, try_queue}
use keel_mqtt_gateway.Broker.OfflineQueue.Outcomes.{
  Tried, is_rejected, was_delivered, is_ready, try_queue-Tried,
}
use keel_mqtt_gateway.Broker.OfflineQueue.History.{
  Op, wrote, deleted, migrated, offered, activated, moved, after_attempt, step, run_ops,
}

-- A field that begins with a direction is not a number.
directional :
    (kind : PacketType) (packet_id n : ℕ)
    → str_eq (write_field 2 kind packet_id) (decimal n) ≡ false
unfolding write_field
directional publish k n = str_eq_comm _ _ ∙ not_number 111 (117 ∷ 116 ∷ 58 ∷ format_id k) n refl
directional puback k n = str_eq_comm _ _ ∙ not_number 105 (110 ∷ 58 ∷ format_id k) n refl
directional pubrec k n = str_eq_comm _ _ ∙ not_number 105 (110 ∷ 58 ∷ format_id k) n refl
directional pubrel k n = str_eq_comm _ _ ∙ not_number 111 (117 ∷ 116 ∷ 58 ∷ format_id k) n refl
directional pubcomp k n = str_eq_comm _ _ ∙ not_number 105 (110 ∷ 58 ∷ format_id k) n refl
directional other_packet k n =
    str_eq_comm _ _ ∙ not_number 111 (117 ∷ 116 ∷ 58 ∷ format_id k) n refl

offline_directional : (packet_id n : ℕ) → str_eq (offline_field 2 packet_id) (decimal n) ≡ false
offline_directional k n = str_eq_comm _ _ ∙ not_number 111 (117 ∷ 116 ∷ 58 ∷ format_id k) n refl

validated-2 : (configured schema : ℕ) → validated configured (some 2) ≡ some schema → 2 ≡ schema
validated-2 configured schema h = ground arith

module _ (keys : ClientKeys) where
  open keys use {W, marker, hget, hset, hdel, set_marker}

  -- No numeric field is new, and the marker is the same.
  Kept : ℕ → W → W → Type 0
  Kept n w w' =
      (marker w' ≡ marker w)
      × ((m : Message) → hget (decimal n) w' ≡ some m → hget (decimal n) w ≡ some m)

  same-Kept :
      (n : ℕ) (w w' : W)
      → marker w' ≡ marker w
      → hget (decimal n) w' ≡ hget (decimal n) w
      → Kept n w w'
  unfolding Kept
  same-Kept n w w' e h = (e, λ m k. sym h ∙ k)

  wrote-Kept :
      (n cached : ℕ) (m : Message) (w : W)
      → Marked 2 (marker w)
      → Kept n w
          (fenced_hset keys
            (schema_version cached)
            (write_field (schema_version cached) m.kind m.packet_id)
            m
            w).0
  unfolding fenced_hset Kept
  wrote-Kept n cached m w h = elim (Bool-cases (is_fenced_by keys (schema_version cached) w)) [
    | inl e ↦
        let same : schema_version cached ≡ 2 = ==→≡ (sym (fenced-Marked keys w cached h) ∙ e) in
        rw (e, same)
          (same-Kept n w (hset (write_field 2 m.kind m.packet_id) m w)
            (keys.marker-hset (write_field 2 m.kind m.packet_id) m w)
            (keys.hget-hset (write_field 2 m.kind m.packet_id) m w (decimal n)
              ∙ rw (directional m.kind m.packet_id n) refl))
    | inr e ↦ rw e (refl, λ k x. x)
  ]

  hdel-Kept : (n : ℕ) (fs : List Str) (w : W) → Kept n w (hdel fs w)
  unfolding Kept
  hdel-Kept n fs w =
      (keys.marker-hdel fs w, λ m h. ground (arith, keys.hget-hdel fs w (decimal n), h))

  deleted-Kept : (n schema : ℕ) (fs : List Str) (w : W) → Kept n w (fenced_hdel keys schema fs w).0
  unfolding fenced_hdel Kept
  deleted-Kept n schema fs w = elim (Bool-cases (is_fenced_by keys schema w)) [
    | inl e ↦ rw e (hdel-Kept n fs w)
    | inr e ↦ rw e (refl, λ k x. x)
  ]

  copied-Kept :
      (n : ℕ) (o : Option Message) (kind : PacketType) (packet_id : ℕ) (m : Message) (w : W)
      → Kept n w (copy_unless keys o (write_field 2 kind packet_id) m w)
  unfolding Kept
  copied-Kept n none kind k m w =
      same-Kept n w (hset (write_field 2 kind k) m w) (keys.marker-hset (write_field 2 kind k) m w)
        (keys.hget-hset (write_field 2 kind k) m w (decimal n) ∙ rw (directional kind k n) refl)
  copied-Kept n (some there) kind k m w = (refl, λ k x. x)

  Kept-trans : (n : ℕ) (u v w : W) → Kept n u v → Kept n v w → Kept n u w
  unfolding Kept
  Kept-trans n u v w (e, f) (e', f') = (e' ∙ e, λ m x. f m (f' m x))

  migrated-Kept :
      (n : ℕ) (o : Option Message) (field : Str) (kind : PacketType) (packet_id : ℕ) (w : W)
      → Kept n w (migrate_value keys o field (write_field 2 kind packet_id) w)
  unfolding Kept
  migrated-Kept n none field kind k w = (refl, λ k x. x)
  migrated-Kept n (some m) field kind k w =
      let there = hget (write_field 2 kind k) w in
      let copied = copy_unless keys there (write_field 2 kind k) m w in
      Kept-trans n w copied (hdel (field ∷ []) copied) (copied-Kept n there kind k m w)
        (hdel-Kept n (field ∷ []) copied)

  offered-Kept :
      (n configured : ℕ) (p : Option Str) (msg : InflightMessage) (w : W) (a : Attempt W)
      → Marked 2 (marker w)
      → Tried keys configured p msg w a
      → Kept n w (after_attempt a w)
  unfolding Kept read_schema
  offered-Kept n configured p msg w _ h is_rejected = (refl, λ k x. x)
  offered-Kept n configured p msg w _ h (was_delivered d) = (refl, λ k x. x)
  offered-Kept n configured p msg w _ h (is_ready {packet_id} {w'} s) =
      let same : 2 ≡ s.schema =
        validated-2 configured s.schema
          (sym (ap (validated configured) (Marked-schema_of h)) ∙ s.read) in
      same-Kept n w w' s.same_marker (
        s.kept (decimal n) (
          subst (λ t. str_eq (offline_field t packet_id) (decimal n) ≡ false) same
            (offline_directional packet_id n)))

  Marked-2 : {o : Option Str} → Marked 2 o → some (codes "2") ≡ o
  Marked-2 marked_2 = refl

  activated-Kept :
      (n : ℕ) (o : Option Str) (w : W) → Marked 2 (marker w) → Kept n w (activate_from keys o w).0
  unfolding Kept activate_from
  activated-Kept n none w h = (refl, λ k x. x)
  activated-Kept n (some current) w h = elim (Bool-cases (str_eq current (codes "1"))) [
    | inl e ↦ rw e (
        same-Kept n w (set_marker (codes "2") w) (keys.marker-set_marker (codes "2") w ∙ Marked-2 h)
          (keys.hget-set_marker (codes "2") w (decimal n)))
    | inr e ↦ rw e (refl, λ k x. x)
  ]

  -- A write out of the first layout by a hook that has not cached schema 2.
  abbrev pub is_unfenced : Op → Bool
  is_unfenced (moved cached m) = not (schema_version cached == 2)
  is_unfenced _ = false

  moved-Kept :
      (n cached : ℕ) (m : Message) (w : W)
      → not (schema_version cached == 2) ≡ false
      → Kept n w (migrate_legacy keys cached m w)
  unfolding migrate_legacy
  moved-Kept n cached m w h =
      let same : schema_version cached ≡ 2 = ==→≡ (ground (arith, h)) in
      subst (λ schema. Kept n w (hset (write_field schema m.kind m.packet_id) m w)) (sym same)
        (same-Kept n w (hset (write_field 2 m.kind m.packet_id) m w)
          (keys.marker-hset (write_field 2 m.kind m.packet_id) m w)
          (keys.hget-hset (write_field 2 m.kind m.packet_id) m w (decimal n)
            ∙ rw (directional m.kind m.packet_id n) refl))

  step-Kept :
      (n : ℕ) (op : Op) (w : W)
      → is_unfenced op ≡ false
      → Marked 2 (marker w)
      → Kept n w (step keys op w)
  unfolding step migrate_field activate_directional Kept
  step-Kept n (wrote cached m) w u h = wrote-Kept n cached m w h
  step-Kept n (deleted cached dropped kind k) w u h =
      deleted-Kept n (schema_version cached) (delete_fields (schema_version cached) dropped kind k)
        w
  step-Kept n (migrated field kind k) w u h = migrated-Kept n (hget field w) field kind k w
  step-Kept n (offered configured p msg) w u h =
      offered-Kept n configured p msg w (try_queue keys configured p msg w) h
        (try_queue-Tried keys configured p msg w)
  step-Kept n (activated configured seen) w u h =
      if_cases (λ r. Kept n w r.0) (not (configured == 0)) (w, false) (activate_from keys seen w)
        (λ _. (refl, λ k x. x)) (λ _. activated-Kept n seen w h)
  step-Kept n (moved cached m) w u h = moved-Kept n cached m w u

  -- Once the marker says schema 2, no interleaving of the steps of all nodes writes a field that is
  -- only a number, whatever schema a node still has cached, but for the copies out of the first
  -- layout by a node that has not cached schema 2, which do not happen here: what such a field
  -- holds, it held before.
  pub no_new_numbers :
      (ops : List Op) (w : W) (n : ℕ) (m : Message)
      → any is_unfenced ops ≡ false
      → Marked 2 (marker w)
      → hget (decimal n) (run_ops keys ops w) ≡ some m
      → hget (decimal n) w ≡ some m
  unfolding run_ops Kept
  no_new_numbers [] w n m u h e = e
  no_new_numbers (op ∷ ops) w n m u h e =
      let kept = step-Kept n op w (ground (arith, u)) h in
      kept.1 m (
        no_new_numbers ops (step keys op w) n m (ground (arith, u))
          (subst (Marked 2) (sym kept.0) h) e)
