-- ===== src/Broker/Inflight/Writes.antt =====
-- redis_session.go: writes and deletions while the marker stays as it is, whatever a hook has
-- cached.
use keel_mqtt_gateway.Prelude.{
  ℕ, ◌≡◌, refl, sym, ap, ◌∙◌, inl, inr, Bool, true, false, not, ◌&&◌, Option, none, some, Str,
  codes, str_eq, decimal, atoi, ◌==◌, if◌then◌else◌, Bool-cases, arith,
}
use keel_mqtt_gateway.Broker.Inflight.{
  PacketType, Message, is_puback, schema_version, write_field, delete_fields, ClientKeys,
  marker_text, validated, schema_of, is_fenced_by, fenced_hset, fenced_hdel, read_schema,
  refresh_schema, attempts, on_qos_publish, delete_inflight,
}

-- The schema that a marker stands for.
pub data Marked : ℕ → Option Str → Type 0 where
  unmarked : Marked 1 none
  marked_1 : Marked 1 (some (codes "1"))
  marked_2 : Marked 2 (some (codes "2"))

pub Marked-schema_of : {s : ℕ} {o : Option Str} → Marked s o → schema_of o ≡ some s
unfolding schema_of atoi
Marked-schema_of unmarked = refl
Marked-schema_of marked_1 = refl
Marked-schema_of marked_2 = refl

Marked-validated : {s : ℕ} {o : Option Str} → Marked s o → validated 0 (some s) ≡ some s
Marked-validated unmarked = refl
Marked-validated marked_1 = refl
Marked-validated marked_2 = refl

-- The fence lets a write through exactly if the hook's schema is that of the marker.
fence_test :
    {s : ℕ} {o : Option Str} (cached : ℕ)
    → Marked s o
    → str_eq (marker_text o) (decimal (schema_version cached)) ≡ (schema_version cached == s)
unfolding decimal str_eq
fence_test cached unmarked = elim (Bool-cases (cached == 2)) [
  | inl e ↦ rw e refl
  | inr e ↦ rw e refl
]
fence_test cached marked_1 = elim (Bool-cases (cached == 2)) [
  | inl e ↦ rw e refl
  | inr e ↦ rw e refl
]
fence_test cached marked_2 = elim (Bool-cases (cached == 2)) [
  | inl e ↦ rw e refl
  | inr e ↦ rw e refl
]

fence_own : {s : ℕ} {o : Option Str} → Marked s o → str_eq (marker_text o) (decimal s) ≡ true
unfolding decimal str_eq
fence_own unmarked = refl
fence_own marked_1 = refl
fence_own marked_2 = refl

pub ==→≡ : {m n : ℕ} → (m == n) ≡ true → m ≡ n
==→≡ h = ground arith

module _ (keys : ClientKeys) where
  open keys use {W, marker, hget, hset, hdel}

  abbrev pub alone : W → W
  alone w = w

  refresh-Marked : {s : ℕ} (w : W) → Marked s (marker w) → refresh_schema keys 0 w ≡ some s
  unfolding refresh_schema read_schema
  refresh-Marked w h = rw (Marked-schema_of h) (Marked-validated h)

  pub fenced-Marked :
      {s : ℕ} (w : W) (cached : ℕ)
      → Marked s (marker w)
      → is_fenced_by keys (schema_version cached) w ≡ (schema_version cached == s)
  unfolding is_fenced_by
  fenced-Marked w cached h = fence_test cached h

  own_fence : {s : ℕ} (w : W) → Marked s (marker w) → is_fenced_by keys s w ≡ true
  unfolding is_fenced_by
  own_fence w h = fence_own h

  -- With a marker that stays, the second attempt is the one that the fence lets through at the
  -- latest.
  attempts-Marked :
      (effect : ℕ → W → W) {s : ℕ} (cached : ℕ) (w : W)
      → Marked s (marker w)
      → attempts keys
          (λ t v. if not (is_fenced_by keys t v) then (v, false) else (effect t v, true))
          alone
          0
          2
          (schema_version cached)
          w
        ≡ (effect s w, true)
  unfolding attempts is_fenced_by
  attempts-Marked effect {s} cached w h =
      elim (Bool-cases (is_fenced_by keys (schema_version cached) w)) [
        | inl e ↦
            let same : schema_version cached ≡ s = ==→≡ (sym (fenced-Marked w cached h) ∙ e) in
            rw e (ap (λ t. (effect t w, true)) same)
        | inr e ↦ rw (e, refresh-Marked w h, own_fence w h) refl
      ]

  -- x
  pub on_qos_publish_lem :
      {s : ℕ} (cached : ℕ) (inbound_flow : Bool) (m : Message) (w : W)
      → Marked s (marker w)
      → on_qos_publish keys alone 0 cached inbound_flow m w ≡ (
          if inbound_flow && is_puback m.kind
          then (w, true)
          else (hset (write_field s m.kind m.packet_id) m w, true))
  unfolding on_qos_publish fenced_hset
  on_qos_publish_lem {s} cached inbound_flow m w h =
      rw (attempts-Marked (λ t. hset (write_field t m.kind m.packet_id) m) cached w h) refl

  pub delete_inflight_lem :
      {s : ℕ} (cached : ℕ) (dropped : Bool) (kind : PacketType) (packet_id : ℕ) (w : W)
      → Marked s (marker w)
      → delete_inflight keys alone 0 cached dropped kind packet_id w
        ≡ (hdel (delete_fields s dropped kind packet_id) w, true)
  unfolding delete_inflight fenced_hdel
  delete_inflight_lem cached dropped kind packet_id w h =
      attempts-Marked (λ t. hdel (delete_fields t dropped kind packet_id)) cached w h
