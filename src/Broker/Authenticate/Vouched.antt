-- ===== src/Broker/Authenticate/Vouched.antt =====
-- hooks.go: what stands behind an authenticated connection.
use mathlib.Core.Option.{some-injective}
use keel_mqtt_gateway.Prelude.{
  ◌≡◌, ◌≢◌, refl, ap, subst, ◌∙◌, Bool, true, false, not, Option, none, some, List, [], ◌∷◌, Str,
  str_eq, is_nil, if_cases, >>=-some, guard-some, arith,
}
use keel_mqtt_gateway.Broker.Device.{DeviceInfo, auth_method_test_consumer}
use keel_mqtt_gateway.Broker.Authenticate.{
  TenantGatewayConfig, TenantRow, load_config, default_config, config_of, fetched_pems,
  tenant_config, Certificate, Environment, Credentials, Authenticated, cn_parts, verify_certificate,
  is_identity_revoked, cas_of, known_or_pending, identity_of, authenticate_cert,
  authenticate_client_id, authenticate_jwt, authenticate_password, named_identity,
  authenticate_username, by_method, auth_method_jwt, test_consumer_username, test_consumer_password,
  authenticate_test_consumer, by_client_id, by_certificate, authenticate, auth_method_certificate,
  parse_client_identifier, detect_auth_method,
}

module _ (env : Environment) where
  -- A certificate that names the device and its tenant, for a tenant that allows certificates,
  -- whose chain leads to one of the tenant's CAs, and that is not revoked; and a device that is
  -- known or about to be registered.
  pub record VouchedByCertificate (c : Certificate) (a : Authenticated) : Type 0 where
    pub device_id : Str
    pub tenant_id : Str
    pub cfg : TenantGatewayConfig
    pub pem : Str
    pub pems : List Str
    pub found : DeviceInfo
    pub named : cn_parts c.common_name ≡ some (device_id, tenant_id)
    pub configured : tenant_config env tenant_id ≡ some cfg
    pub enabled : cfg.cert_auth_enabled ≡ true
    pub trusted : cas_of env tenant_id cfg env.device_ca ≡ some (some (pem ∷ pems))
    pub chained : env.chain_verifies (pem ∷ pems) c ≡ true
    pub unrevoked :
        is_identity_revoked env env.is_revoked (identity_of env (device_id, tenant_id)) ≡ false
    pub known :
        known_or_pending env device_id tenant_id cfg (env.lookup_by_cn device_id tenant_id)
        ≡ some (found, a.provisions)
    pub identified : a.info ≡ record found { identity = identity_of env (device_id, tenant_id) }

  trusted_chain :
      (c : Certificate) (pems : Option (List Str)) (parts : Str × Str)
      → pems ≢ none
      → verify_certificate env c pems ≡ some parts
      → (pem : Str) × (more : List Str) × (pems ≡ some (pem ∷ more))
        × (cn_parts c.common_name ≡ some parts)
        × (env.chain_verifies (pem ∷ more) c ≡ true)
  unfolding verify_certificate
  trusted_chain c none parts n e = absurd (n refl)
  trusted_chain c (some []) parts n e =
      >>=-some (cn_parts c.common_name) _ e λ p q r. absurd (ground arith)
  trusted_chain c (some (pem ∷ more)) parts n e = >>=-some (cn_parts c.common_name) _ e λ p q r.
      guard-some (env.chain_verifies (pem ∷ more) c) _ r λ t u. (pem, more, refl, ground arith, t)

  fetched-list : (o : Option Str) → fetched_pems o ≢ some none
  fetched-list none e = absurd (ground (arith, e))
  fetched-list (some pem) e = absurd (ground (arith, e))

  trusted-list :
      (o : Option (Option TenantRow)) (cfg : TenantGatewayConfig)
      → load_config o ≡ some cfg
      → cfg.cert_auth_enabled ≡ true
      → cfg.trusted_ca_pems ≢ none
  trusted-list none cfg e en = absurd (ground (arith, e))
  trusted-list (some none) cfg e en =
      absurd
        (ground (arith, en, ap (λ c. c.cert_auth_enabled) (some-injective default_config cfg e)))
  trusted-list (some (some row)) cfg e en =
      λ n. ground (arith, n, ap (λ c. c.trusted_ca_pems) (some-injective (config_of row) cfg e))

  -- A configuration that allows certificates has a list of CAs, or the service gives one.
  cas-list :
      (t : Str) (cfg : TenantGatewayConfig) (ca : Option (Str → Str → Option Str))
      → tenant_config env t ≡ some cfg
      → cfg.cert_auth_enabled ≡ true
      → cas_of env t cfg ca ≢ some none
  cas-list t cfg none e en = λ n. trusted-list (env.tenant_row t) cfg e en (ground (arith, n))
  cas-list t cfg (some fetch) e en =
      if_cases (λ o. o ≢ some none) (is_nil cfg.clavex_ca_url) (some cfg.trusted_ca_pems)
        (fetched_pems (fetch t cfg.clavex_ca_url))
        (λ _ n. trusted-list (env.tenant_row t) cfg e en (ground (arith, n)))
        (λ _. fetched-list (fetch t cfg.clavex_ca_url))

  abbrev vouched_of : Str × Str → DeviceInfo × Bool → Authenticated
  vouched_of parts found = record {
    info = record found.0 { identity = identity_of env parts };
    method = auth_method_certificate;
    provisions = found.1;
  }

  unclaimed :
      (c : Certificate) (parts : Str × Str)
      → verify_certificate env c none ≡ some parts
      → cn_parts c.common_name ≡ some parts
  unfolding verify_certificate
  unclaimed c parts e = >>=-some (cn_parts c.common_name) _ e λ p q r. ground arith

  vouched :
      (c : Certificate) (claimed parts : Str × Str) (cfg : TenantGatewayConfig)
      (pems : Option (List Str)) (found : DeviceInfo × Bool)
      → verify_certificate env c none ≡ some claimed
      → tenant_config env claimed.1 ≡ some cfg
      → cfg.cert_auth_enabled ≡ true
      → cas_of env claimed.1 cfg env.device_ca ≡ some pems
      → verify_certificate env c pems ≡ some parts
      → not (is_identity_revoked env env.is_revoked (identity_of env parts)) ≡ true
      → known_or_pending env parts.0 parts.1 cfg (env.lookup_by_cn parts.0 parts.1) ≡ some found
      → VouchedByCertificate c (vouched_of parts found)
  vouched c claimed parts cfg pems found p q en r s rev k =
      let n : pems ≢ none = λ x. cas-list claimed.1 cfg env.device_ca q en (ground arith) in
      let (pem, more, t, u, v) = trusted_chain c pems parts n s in
      let same : claimed ≡ parts = ground (arith, unclaimed c claimed p) in
      record {
        device_id = parts.0;
        tenant_id = parts.1;
        cfg = cfg;
        pem = pem;
        pems = more;
        found = found.0;
        named = u;
        configured = subst (λ (x : Str × Str). tenant_config env x.1 ≡ some cfg) same q;
        enabled = en;
        trusted =
            subst (λ (x : Str × Str). cas_of env x.1 cfg env.device_ca ≡ some (some (pem ∷ more)))
              same (r ∙ ap some t);
        chained = v;
        unrevoked = ground arith;
        known = k;
        identified = refl;
      }

  authenticate_cert-Vouched :
      (c : Certificate) (a : Authenticated)
      → authenticate_cert env c ≡ some a
      → VouchedByCertificate c a
  unfolding authenticate_cert
  authenticate_cert-Vouched c a e = >>=-some (verify_certificate env c none) _ e λ claimed p e1.
      >>=-some (tenant_config env claimed.1) _ e1 λ cfg q e2.
        guard-some cfg.cert_auth_enabled _ e2 λ en e3.
          >>=-some (cas_of env claimed.1 cfg env.device_ca) _ e3 λ pems r e4.
            >>=-some (verify_certificate env c pems) _ e4 λ parts s e5.
              guard-some (not (is_identity_revoked env env.is_revoked (identity_of env parts))) _ e5
                λ rev e6.
                  >>=-some
                    (known_or_pending env parts.0 parts.1 cfg (env.lookup_by_cn parts.0 parts.1)) _
                    e6
                    λ found k e7.
                      subst (VouchedByCertificate c) (some-injective (vouched_of parts found) a e7)
                        (vouched c claimed parts cfg pems found p q en r s rev k)

  -- What an authenticated connection showed.
  pub data Vouched (k : Credentials) (a : Authenticated) : Type 0 where
    with_certificate :
        (c : Certificate) → k.certificate ≡ some c → VouchedByCertificate c a → Vouched k a
    with_role :
        k.certificate ≡ none
        → str_eq k.username (test_consumer_username env) ≡ true
        → str_eq k.password (test_consumer_password env) ≡ true
        → a.method ≡ auth_method_test_consumer
        → Vouched k a
    with_client_id :
        (tenant_id device_id : Str) (cfg : TenantGatewayConfig)
        → k.certificate ≡ none
        → parse_client_identifier k.client_id ≡ some (tenant_id, device_id)
        → tenant_config env tenant_id ≡ some cfg
        → cfg.jwt_auth_enabled ≡ true
        → env.validate_jwt_from_client_id tenant_id device_id k.password cfg ≡ true
        → env.lookup_by_cn device_id tenant_id ≡ some a.info
        → Vouched k a
    with_jwt :
        (cfg : TenantGatewayConfig)
        → k.certificate ≡ none
        → tenant_config env (named_identity env k.client_id k.username).1 ≡ some cfg
        → cfg.jwt_auth_enabled ≡ true
        → env.validate_jwt
            (named_identity env k.client_id k.username).1
            (named_identity env k.client_id k.username).0
            k.password
            cfg
          ≡ true
        → env.lookup_by_cn
            (named_identity env k.client_id k.username).0
            (named_identity env k.client_id k.username).1
          ≡ some a.info
        → Vouched k a
    with_password :
        (cfg : TenantGatewayConfig)
        → k.certificate ≡ none
        → tenant_config env (named_identity env k.client_id k.username).1 ≡ some cfg
        → cfg.password_auth_enabled ≡ true
        → env.validate_password (named_identity env k.client_id k.username).0 k.password
          ≡ some a.info
        → Vouched k a

  jwt-Vouched :
      (k : Credentials) (a : Authenticated) (cfg : TenantGatewayConfig)
      → let named = named_identity env k.client_id k.username in
        k.certificate ≡ none
        → tenant_config env named.1 ≡ some cfg
        → authenticate_jwt env named.1 named.0 k.password cfg ≡ some a
        → Vouched k a
  unfolding authenticate_jwt
  jwt-Vouched k a cfg n q e =
      let named = named_identity env k.client_id k.username in
      guard-some cfg.jwt_auth_enabled _ e λ en e1.
        guard-some (env.validate_jwt named.1 named.0 k.password cfg) _ e1 λ v e2.
          >>=-some (env.lookup_by_cn named.0 named.1) _ e2
            λ info l e3. with_jwt cfg n q en v (ground arith)

  password-Vouched :
      (k : Credentials) (a : Authenticated) (cfg : TenantGatewayConfig)
      → let named = named_identity env k.client_id k.username in
        k.certificate ≡ none
        → tenant_config env named.1 ≡ some cfg
        → authenticate_password env named.0 k.password cfg ≡ some a
        → Vouched k a
  unfolding authenticate_password
  password-Vouched k a cfg n q e =
      let named = named_identity env k.client_id k.username in
      guard-some cfg.password_auth_enabled _ e λ en e1.
        >>=-some (env.validate_password named.0 k.password) _ e1
          λ info l e2. with_password cfg n q en (ground arith)

  username-Vouched :
      (k : Credentials) (a : Authenticated)
      → k.certificate ≡ none
      → authenticate_username env k ≡ some a
      → Vouched k a
  unfolding authenticate_username by_method
  username-Vouched k a n e =
      let named = named_identity env k.client_id k.username in
      >>=-some (tenant_config env named.1) _ e λ cfg q e1.
        if_cases (λ m. m ≡ some a → Vouched k a)
          (str_eq (detect_auth_method k.password) auth_method_jwt)
          (authenticate_jwt env named.1 named.0 k.password cfg)
          (authenticate_password env named.0 k.password cfg) (λ _. jwt-Vouched k a cfg n q)
          (λ _. password-Vouched k a cfg n q) e1

  client_id-Vouched :
      (k : Credentials) (a : Authenticated) (t d : Str)
      → k.certificate ≡ none
      → parse_client_identifier k.client_id ≡ some (t, d)
      → authenticate_client_id env t d k.password ≡ some a
      → Vouched k a
  unfolding authenticate_client_id
  client_id-Vouched k a t d n p e = >>=-some (tenant_config env t) _ e λ cfg q e1.
      guard-some cfg.jwt_auth_enabled _ e1 λ en e2.
        guard-some (env.validate_jwt_from_client_id t d k.password cfg) _ e2 λ v e3.
          >>=-some (env.lookup_by_cn d t) _ e3
            λ info l e4. with_client_id t d cfg n p q en v (ground arith)

  by_client_id-Vouched :
      (k : Credentials) (a : Authenticated) (o : Option (Str × Str))
      → k.certificate ≡ none
      → parse_client_identifier k.client_id ≡ o
      → by_client_id env k o ≡ some a
      → Vouched k a
  unfolding by_client_id
  by_client_id-Vouched k a none n p e = username-Vouched k a n e
  by_client_id-Vouched k a (some (t, d)) n p e =
      if_cases (λ m. m ≡ some a → Vouched k a) (is_nil k.password) (authenticate_username env k)
        (authenticate_client_id env t d k.password) (λ _. username-Vouched k a n)
        (λ _. client_id-Vouched k a t d n p) e

  role-Vouched :
      (k : Credentials) (a : Authenticated)
      → k.certificate ≡ none
      → str_eq k.username (test_consumer_username env) ≡ true
      → authenticate_test_consumer env k.password ≡ some a
      → Vouched k a
  unfolding authenticate_test_consumer
  role-Vouched k a n u e =
      guard-some (str_eq k.password (test_consumer_password env)) _ e
        λ p e1. with_role n u p (ground arith)

  certificate-Vouched :
      (k : Credentials) (a : Authenticated) (o : Option Certificate)
      → k.certificate ≡ o
      → by_certificate env k o ≡ some a
      → Vouched k a
  unfolding by_certificate
  certificate-Vouched k a (some c) n e = with_certificate c n (authenticate_cert-Vouched c a e)
  certificate-Vouched k a none n e =
      if_cases (λ m. m ≡ some a → Vouched k a) (str_eq k.username (test_consumer_username env))
        (authenticate_test_consumer env k.password)
        (by_client_id env k (parse_client_identifier k.client_id)) (role-Vouched k a n)
        (λ _. by_client_id-Vouched k a (parse_client_identifier k.client_id) n refl) e

  -- Every authenticated connection showed something: a certificate naming a device and a tenant
  -- that allows certificates, with a chain to one of that tenant's CAs, not revoked, and the device
  -- known or being registered; or, with no certificate, a JWT or a password that is valid and of a
  -- kind that the tenant named by the client allows; or the password of the built-in test role.
  pub authenticate-Vouched :
      (k : Credentials) (a : Authenticated) → authenticate env k ≡ some a → Vouched k a
  unfolding authenticate
  authenticate-Vouched k a e = certificate-Vouched k a k.certificate refl e
