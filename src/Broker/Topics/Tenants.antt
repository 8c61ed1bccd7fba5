-- ===== src/Broker/Topics/Tenants.antt =====
-- hooks.go: the topics that name a tenant and a device.
use keel_mqtt_gateway.Prelude.{
  ◌≡◌, refl, ◌⊎◌, inl, inr, Bool, true, not, ◌||◌, [], ◌∷◌, ◌++◌, Str, str_eq, str_eq_iff,
  has_prefix, length-append, if◌then◌else◌, arith,
}
use keel_mqtt_gateway.Acl.Topic.{slash}
use keel_mqtt_gateway.Routing.Keys.Roundtrip.{IsFree}
use keel_mqtt_gateway.Broker.Device.{DeviceInfo}
use keel_mqtt_gateway.Broker.Topics.{
  goes_on, is_hono_topic_shape, is_hono_topic_owned, is_allowed_direct, telemetry_slash,
  event_slash, allowed_publish_within, is_allowed_publish,
}
use keel_mqtt_gateway.Broker.Topics.Publishes.{goes_on_lem}

str_eq-append : (a x y : Str) → str_eq (a ++ x) (a ++ y) ≡ str_eq x y
unfolding str_eq
str_eq-append [] x y = refl
str_eq-append (c ∷ a) x y = ground (arith, str_eq-append a x y)

has_prefix_both : (a x y : Str) → has_prefix (a ++ x) (a ++ y) ≡ has_prefix x y
unfolding has_prefix
has_prefix_both [] x y = refl
has_prefix_both (c ∷ a) x y = ground (arith, has_prefix_both a x y)

append_assoc : (a b c : Str) → (a ++ b) ++ c ≡ a ++ (b ++ c)
append_assoc [] b c = refl
append_assoc (x ∷ a) b c = ground (arith, append_assoc a b c)

-- Of two texts without a slash, one and a slash start the other and a slash only where they are
-- the same.
first_level :
    (t u rest : Str)
    → IsFree slash t
    → IsFree slash u
    → has_prefix (t ++ slash ∷ rest) (u ++ slash ∷ []) ≡ str_eq t u
unfolding has_prefix str_eq
first_level [] [] rest f g = refl
first_level [] (y ∷ u) rest f g = ground arith
first_level (x ∷ t) [] rest f g = ground arith
first_level (x ∷ t) (y ∷ u) rest f g = ground (arith, first_level t u rest)

-- The device's own topic, or one below it.
abbrev pub own_device : DeviceInfo → Str → Bool
unfolding str_eq has_prefix
own_device info rest = str_eq rest info.id || has_prefix rest (info.id ++ slash ∷ [])

module _ (info : DeviceInfo) (t rest : Str) where
  abbrev body : Str
  body = t ++ slash ∷ rest

  abbrev td : Str
  td = info.tenant_id ++ slash ∷ info.id

  shape_lem :
      IsFree slash t
      → IsFree slash info.tenant_id
      → goes_on info.tenant_id body ≡ str_eq t info.tenant_id
  shape_lem f g =
      ground (arith, goes_on_lem info.tenant_id body, first_level t info.tenant_id rest f g)

  owned_lem :
      str_eq t info.tenant_id ≡ true → (str_eq body td || goes_on td body) ≡ own_device info rest
  unfolding str_eq has_prefix
  owned_lem e = rw ((str_eq_iff t info.tenant_id).0 e) (
      ground (
        arith,
        str_eq-append info.tenant_id (slash ∷ rest) (slash ∷ info.id),
        goes_on_lem (info.tenant_id ++ slash ∷ info.id) (info.tenant_id ++ slash ∷ rest),
        append_assoc info.tenant_id (slash ∷ info.id) (slash ∷ []),
        has_prefix_both info.tenant_id (slash ∷ rest) (slash ∷ info.id ++ slash ∷ []),
      ))

  hono_lem :
      (own shape : Bool)
      → IsFree slash t
      → IsFree slash info.tenant_id
      → own ≡ (str_eq body td || goes_on td body)
      → shape ≡ goes_on info.tenant_id body
      → (own || not shape) ≡ (if str_eq t info.tenant_id then own_device info rest else true)
  hono_lem own shape f g a b = ground (arith, shape_lem f g, owned_lem)

  -- Of the topics under "telemetry/" or "event/" that go on with a tenant and a slash, neither
  -- tenant holding a slash, a device may publish under its own tenant to those of its own device,
  -- and under every other tenant to all.
  pub tenant_topic :
      (is_uuid : Str → Bool) (prefix : Str)
      → (prefix ≡ telemetry_slash) ⊎ (prefix ≡ event_slash)
      → IsFree slash t
      → IsFree slash info.tenant_id
      → is_allowed_publish is_uuid (prefix ++ t ++ slash ∷ rest) info
        ≡ (if str_eq t info.tenant_id then own_device info rest else true)
  unfolding is_allowed_publish allowed_publish_within is_allowed_direct is_hono_topic_owned
      is_hono_topic_shape str_eq has_prefix
  tenant_topic is_uuid prefix (inl e) f g =
      rw e (ground (arith, hono_lem _ _ f g refl refl, length-append t (slash ∷ rest)))
  tenant_topic is_uuid prefix (inr e) f g =
      rw e (ground (arith, hono_lem _ _ f g refl refl, length-append t (slash ∷ rest)))
