-- ===== src/Broker/Inflight/Fields.antt =====
-- redis_session.go: whether the packet that ends an exchange, or its loss, removes the field that
-- the exchange was stored in.
use keel_mqtt_gateway.Prelude.{
  ℕ, ◌≡◌, refl, sym, ap, ◌∙◌, Bool, true, false, not, ◌&&◌, ◌||◌, Option, none, some, [], ◌∷◌, ◌++◌,
  Str, str_eq, str_eq_refl, any, decimal, decimal-digit, starts_with_digit, is_digit, subst,
  if◌then◌else◌, arith,
}
use keel_mqtt_gateway.Broker.Inflight.{
  PacketType, publish, puback, pubrec, pubrel, pubcomp, other_packet, Message, format_id, inbound,
  outbound, written_direction, completed_direction, is_puback, write_field, delete_fields,
  ClientKeys, on_qos_publish, on_qos_complete, on_qos_dropped,
}
use keel_mqtt_gateway.Broker.Inflight.Writes.{
  Marked, unmarked, marked_1, marked_2, alone, on_qos_publish_lem, delete_inflight_lem,
}

-- The packet that ends the exchange of a stored one: for a publish to the client its PUBACK or
-- PUBCOMP, for a PUBREL to it its PUBCOMP, and for a PUBREC to it the PUBREL.
pub data Ends : PacketType → PacketType → Type 0 where
  acknowledged : Ends publish puback
  completed : Ends publish pubcomp
  released_completed : Ends pubrel pubcomp
  received_released : Ends pubrec pubrel

abbrev pub is_pubrel : PacketType → Bool
is_pubrel pubrel = true
is_pubrel _ = false

pub not_number : (c : ℕ) (s : Str) (n : ℕ) → is_digit c ≡ false → str_eq (decimal n) (c ∷ s) ≡ false
unfolding str_eq
not_number c s n h = digits (decimal n) (decimal-digit n)
  where
    digits : (t : Str) → starts_with_digit t ≡ true → str_eq t (c ∷ s) ≡ false
    digits [] d = ground arith
    digits (x ∷ t) d = ground arith

Ends-direction :
    {stored ack : PacketType} → Ends stored ack → completed_direction ack ≡ written_direction stored
Ends-direction acknowledged = refl
Ends-direction completed = refl
Ends-direction released_completed = refl
Ends-direction received_released = refl

Ends-deletes :
    {stored ack : PacketType} {s : ℕ} {o : Option Str} (packet_id : ℕ) (g : Str)
    → Ends stored ack
    → Marked s o
    → any (λ f. str_eq f g) (delete_fields s false ack packet_id)
      ≡ (str_eq (write_field s stored packet_id) g || str_eq (format_id packet_id) g)
unfolding delete_fields write_field
Ends-deletes packet_id g e unmarked = ground arith
Ends-deletes packet_id g e marked_1 = ground arith
Ends-deletes packet_id g e marked_2 = rw (Ends-direction e) (ground arith)

-- Under schema 2 a loss removes the field of every packet but of a PUBREL.
drop_spares :
    (kind : PacketType) (packet_id : ℕ)
    → any (λ f. str_eq f (write_field 2 kind packet_id)) (delete_fields 2 true kind packet_id)
      ≡ not (is_pubrel kind)
unfolding delete_fields write_field str_eq
drop_spares publish n = ground (arith, str_eq_refl (format_id n))
drop_spares puback n = ground (arith, str_eq_refl (format_id n))
drop_spares pubrec n = ground (arith, str_eq_refl (format_id n))
drop_spares pubrel n = rw (not_number 111 (117 ∷ 116 ∷ 58 ∷ format_id n) n refl) refl
drop_spares pubcomp n = ground (arith, str_eq_refl (format_id n))
drop_spares other_packet n = ground (arith, str_eq_refl (format_id n))

drop_inbound :
    (kind : PacketType) (packet_id : ℕ)
    → is_pubrel kind ≡ true
    → any (λ f. str_eq f (inbound ++ format_id packet_id)) (delete_fields 2 true kind packet_id)
      ≡ true
unfolding delete_fields
drop_inbound publish n h = ground arith
drop_inbound puback n h = ground arith
drop_inbound pubrec n h = ground arith
drop_inbound pubrel n h = rw (str_eq_refl (inbound ++ format_id n)) refl
drop_inbound pubcomp n h = ground arith
drop_inbound other_packet n h = ground arith

-- Under schema 2 a PUBCOMP is written as inbound and completed as outbound.
pubcomp_spares :
    (n : ℕ) → any (λ f. str_eq f (inbound ++ format_id n)) (delete_fields 2 false pubcomp n) ≡ false
unfolding delete_fields str_eq
pubcomp_spares n = rw (not_number 105 (110 ∷ 58 ∷ format_id n) n refl) refl

pubcomp_deletes :
    (n : ℕ) → any (λ f. str_eq f (outbound ++ format_id n)) (delete_fields 2 false pubcomp n) ≡ true
unfolding delete_fields
pubcomp_deletes n = rw (str_eq_refl (outbound ++ format_id n)) refl

pubcomp_written : (n : ℕ) → str_eq (write_field 2 pubcomp n) (inbound ++ format_id n) ≡ true
unfolding write_field
pubcomp_written n = str_eq_refl (inbound ++ format_id n)

module _ (keys : ClientKeys) where
  open keys use {W, marker, hget, hset, hdel}

  hset-Marked :
      {s : ℕ} (f : Str) (m : Message) (w : W) → Marked s (marker w) → Marked s (marker (hset f m w))
  hset-Marked {s} f m w h = subst (Marked s) (sym (keys.marker-hset f m w)) h

  completed_state :
      {s : ℕ} (inbound_flow : Bool) (ack : PacketType) (cached packet_id : ℕ) (w : W)
      → inbound_flow && is_puback ack ≡ false
      → Marked s (marker w)
      → on_qos_complete keys (alone keys) 0 cached inbound_flow ack packet_id w
        ≡ (hdel (delete_fields s false ack packet_id) w, true)
  unfolding on_qos_complete
  completed_state inbound_flow ack cached packet_id w e h =
      rw e (delete_inflight_lem keys cached false ack packet_id w h)

  -- Under a marker of either schema that stays as it is, a stored packet and then the packet that
  -- ends its exchange leave the field of the first empty, and change no field besides it and the
  -- number of its ID, whatever schema each hook has cached.
  pub complete_lem :
      {s : ℕ} {ack : PacketType} (cached cached' : ℕ) (m : Message) (w : W)
      → Marked s (marker w)
      → Ends m.kind ack
      → let w1 = (on_qos_publish keys (alone keys) 0 cached false m w).0 in
        let w2 = (on_qos_complete keys (alone keys) 0 cached' false ack m.packet_id w1).0 in
        (hget (write_field s m.kind m.packet_id) w2 ≡ none)
        × ((g : Str)
            → str_eq (write_field s m.kind m.packet_id) g ≡ false
            → str_eq (format_id m.packet_id) g ≡ false
            → hget g w2 ≡ hget g w)
  complete_lem {s} {ack} cached cached' m w h e =
      let f = write_field s m.kind m.packet_id in
      let gone = delete_fields s false ack m.packet_id in
      rw
        (
          on_qos_publish_lem keys cached false m w h,
          completed_state false ack cached' m.packet_id (hset f m w) refl (hset-Marked f m w h),
        )
        (
          keys.hget-hdel gone (hset f m w) f
              ∙ rw (Ends-deletes m.packet_id f e h, str_eq_refl f) refl,
          λ g d n.
              keys.hget-hdel gone (hset f m w) g
              ∙ rw (Ends-deletes m.packet_id g e h, d, n) (keys.hget-hset f m w g ∙ rw d refl),
        )

  dropped_state :
      {s : ℕ} (kind : PacketType) (cached packet_id : ℕ) (w : W)
      → Marked s (marker w)
      → on_qos_dropped keys (alone keys) 0 cached kind packet_id w
        ≡ (hdel (delete_fields s true kind packet_id) w, true)
  unfolding on_qos_dropped
  dropped_state kind cached packet_id w h = delete_inflight_lem keys cached true kind packet_id w h

  -- Under schema 2 the loss of a stored packet empties its field, unless it is a PUBREL: then the
  -- field keeps it, and the field of the inbound exchange of the same ID is emptied instead.
  pub drop_lem :
      (cached cached' : ℕ) (m : Message) (w : W)
      → Marked 2 (marker w)
      → let w1 = (on_qos_publish keys (alone keys) 0 cached false m w).0 in
        let w2 = (on_qos_dropped keys (alone keys) 0 cached' m.kind m.packet_id w1).0 in
        (hget (write_field 2 m.kind m.packet_id) w2 ≡ (if is_pubrel m.kind then some m else none))
        × (is_pubrel m.kind ≡ true → hget (inbound ++ format_id m.packet_id) w2 ≡ none)
  drop_lem cached cached' m w h =
      let f = write_field 2 m.kind m.packet_id in
      let gone = delete_fields 2 true m.kind m.packet_id in
      rw
        (
          on_qos_publish_lem keys cached false m w h,
          dropped_state m.kind cached' m.packet_id (hset f m w) (hset-Marked f m w h),
        )
        (
          keys.hget-hdel gone (hset f m w) f
              ∙ rw (keys.hget-hset f m w f, str_eq_refl f, drop_spares m.kind m.packet_id)
                  (ground arith),
          λ p.
              keys.hget-hdel gone (hset f m w) (inbound ++ format_id m.packet_id)
              ∙ rw (drop_inbound m.kind m.packet_id p) refl,
        )

  -- Under schema 2 a PUBCOMP that is stored and then completed leaves its field as stored, and
  -- empties the field of the outbound exchange of the same ID.
  pub resent_pubcomp :
      (cached cached' : ℕ) (m : Message) (w : W)
      → Marked 2 (marker w)
      → m.kind ≡ pubcomp
      → let w1 = (on_qos_publish keys (alone keys) 0 cached true m w).0 in
        let w2 = (on_qos_complete keys (alone keys) 0 cached' true m.kind m.packet_id w1).0 in
        (hget (inbound ++ format_id m.packet_id) w2 ≡ some m)
        × (hget (outbound ++ format_id m.packet_id) w2 ≡ none)
  resent_pubcomp cached cached' m w h e =
      let f = write_field 2 m.kind m.packet_id in
      let gone = delete_fields 2 false m.kind m.packet_id in
      rw
        (
          on_qos_publish_lem keys cached true m w h,
          ap is_puback e,
          completed_state true m.kind cached' m.packet_id (hset f m w) (ap is_puback e)
              (hset-Marked f m w h),
        )
        (
          keys.hget-hdel gone (hset f m w) (inbound ++ format_id m.packet_id)
              ∙ rw
                  (
                    keys.hget-hset f m w (inbound ++ format_id m.packet_id),
                    e,
                    pubcomp_spares m.packet_id,
                    pubcomp_written m.packet_id,
                  )
                  refl,
          keys.hget-hdel gone (hset f m w) (outbound ++ format_id m.packet_id)
              ∙ rw (e, pubcomp_deletes m.packet_id) refl,
        )
