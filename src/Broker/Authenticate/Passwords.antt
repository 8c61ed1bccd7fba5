-- ===== src/Broker/Authenticate/Passwords.antt =====
-- hooks.go: the tenant that a user name gives, where the credential is a password.
use keel_mqtt_gateway.Prelude.{
  ℕ, ◌≡◌, refl, ap, ◌∙◌, true, false, none, some, [], ◌∷◌, ◌++◌, Str, str_eq, split_n, arith,
}
use keel_mqtt_gateway.Routing.Keys.Roundtrip.{IsFree}
use keel_mqtt_gateway.Broker.Device.{DeviceInfo}
use keel_mqtt_gateway.Broker.Authenticate.{
  tenant_config, TenantGatewayConfig, Environment, Credentials, at_sign, named_identity,
  detect_auth_method, auth_method_jwt, auth_method_password, authenticate_password, by_method,
  authenticate_username, test_consumer_username, by_client_id, by_certificate, authenticate,
  parse_client_identifier, names,
}

split_n-once : (c : ℕ) (a b : Str) → IsFree c a → split_n c 1 (a ++ c ∷ b) ≡ a ∷ b ∷ []
unfolding split_n
split_n-once c [] b f = ground arith
split_n-once c (x ∷ a) b f = ground (arith, split_n-once c a b)

module _ (env : Environment) (k : Credentials) (d t : Str) (cfg : TenantGatewayConfig) where
  named_by_username :
      k.username ≡ d ++ at_sign ∷ t
      → IsFree at_sign d
      → named_identity env k.client_id k.username ≡ (d, t)
  unfolding named_identity
  named_by_username u f =
      ap (λ x. names env k.client_id k.username (split_n at_sign 1 x)) u
      ∙ ap (names env k.client_id k.username) (split_n-once at_sign d t f)

  authenticate-username :
      k.certificate ≡ none
      → str_eq k.username (test_consumer_username env) ≡ false
      → parse_client_identifier k.client_id ≡ none
      → authenticate env k ≡ authenticate_username env k
  unfolding authenticate by_certificate by_client_id
  authenticate-username n u p = rw (n, u, p) refl

  -- A connection without a certificate whose user name is a device, "@" and a tenant, that is not
  -- the test role nor in the client-ID mode, and whose password is no JWT and valid for the device,
  -- is authenticated as that device as soon as the tenant that the name gives allows passwords,
  -- whichever tenant the device is of.
  pub password_any_tenant :
      (info : DeviceInfo)
      → k.certificate ≡ none
      → str_eq k.username (test_consumer_username env) ≡ false
      → parse_client_identifier k.client_id ≡ none
      → k.username ≡ d ++ at_sign ∷ t
      → IsFree at_sign d
      → str_eq (detect_auth_method k.password) auth_method_jwt ≡ false
      → tenant_config env t ≡ some cfg
      → cfg.password_auth_enabled ≡ true
      → env.validate_password d k.password ≡ some info
      → authenticate env k
        ≡ some (record { info = info; method = auth_method_password; provisions = false })
  unfolding authenticate_username by_method authenticate_password
  password_any_tenant info n u p s f m q en v =
      rw (authenticate-username n u p, named_by_username s f, q, m, en, v) refl
