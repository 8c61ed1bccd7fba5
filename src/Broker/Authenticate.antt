-- ===== src/Broker/Authenticate.antt =====
-- internal/broker/hooks.go, with internal/auth/crypto.go and auth.go: who a connection is.
-- The chain check of package x509, the JWT library, the database behind the provider and the
-- configuration, and the caches are an environment. Failures are logged and counted alike: `none`.
pub mod Vouched
pub mod Passwords
use keel_mqtt_gateway.Prelude.{
  ℕ, Bool, true, false, not, ◌&&◌, ◌||◌, Option, none, some, List, [], ◌∷◌, ◌++◌, Str, codes,
  str_eq, has_prefix, split_n, is_nil, length, ltb, has_some, if◌then◌else◌, ◌>>=◌, ◌>>◌, guard,
}
use keel_mqtt_gateway.Acl.Topic.{slash}
use keel_mqtt_gateway.Broker.Device.{DeviceInfo, AuthMethod, auth_method_test_consumer}

abbrev pub auth_method_password : AuthMethod
auth_method_password = codes "password"

abbrev pub auth_method_jwt : AuthMethod
auth_method_jwt = codes "jwt"

abbrev pub auth_method_certificate : AuthMethod
auth_method_certificate = codes "certificate"

-- DetectAuthMethod.
unfoldable pub detect_auth_method : Str → AuthMethod
unfolding has_prefix
detect_auth_method password =
    if ltb 4 (length password) && has_prefix password (codes "eyJ")
    then auth_method_jwt
    else auth_method_password

abbrev pub google_parts : List Str → Option (Str × Str)
unfolding str_eq
google_parts (tenants ∷ tenant_id ∷ devices ∷ device_id ∷ []) =
    if not (str_eq tenants (codes "tenants")) || not (str_eq devices (codes "devices"))
    then none
    else if is_nil tenant_id || is_nil device_id
    then none
    else some (tenant_id, device_id)
google_parts _ = none

-- ParseClientIdentifier: the tenant and the device; `none` is ok = false.
unfoldable pub parse_client_identifier : Str → Option (Str × Str)
unfolding google_parts split_n
parse_client_identifier client_id = google_parts (split_n slash 3 client_id)

-- TenantGatewayConfig. A slice that may be nil is an Option.
pub record TenantGatewayConfig : Type 0 where
  pub password_auth_enabled : Bool
  pub jwt_auth_enabled : Bool
  pub cert_auth_enabled : Bool
  pub trusted_ca_pems : Option (List Str)
  pub clavex_ca_url : Str
  pub auto_provisioning : Bool

-- A row of tenant_gateway_config, its NULLs coalesced: the CAs are a list, which may be empty.
pub record TenantRow : Type 0 where
  pub row_password_auth_enabled : Bool
  pub row_jwt_auth_enabled : Bool
  pub row_cert_auth_enabled : Bool
  pub row_trusted_ca_pems : List Str
  pub row_clavex_ca_url : Str
  pub row_auto_provisioning : Bool

-- The configuration of a tenant without a row.
abbrev pub default_config : TenantGatewayConfig
default_config = record {
  password_auth_enabled = true;
  jwt_auth_enabled = false;
  cert_auth_enabled = false;
  trusted_ca_pems = none;
  clavex_ca_url = [];
  auto_provisioning = false;
}

abbrev pub config_of : TenantRow → TenantGatewayConfig
config_of row = record {
  password_auth_enabled = row.row_password_auth_enabled;
  jwt_auth_enabled = row.row_jwt_auth_enabled;
  cert_auth_enabled = row.row_cert_auth_enabled;
  trusted_ca_pems = some row.row_trusted_ca_pems;
  clavex_ca_url = row.row_clavex_ca_url;
  auto_provisioning = row.row_auto_provisioning;
}

-- load: the query fails, finds no row, or finds one.
abbrev pub load_config : Option (Option TenantRow) → Option TenantGatewayConfig
load_config none = none
load_config (some none) = some default_config
load_config (some (some row)) = some (config_of row)

-- The list that fetch makes of the one PEM of the service, which must not be empty.
abbrev pub fetched_pems : Option Str → Option (Option (List Str))
fetched_pems none = none
fetched_pems (some pem) = if is_nil pem then none else some (some (pem ∷ []))

-- A peer's certificate: its common name, and all of it.
pub record Certificate : Type 0 where
  pub common_name : Str
  pub raw : Str

pub record Environment : Type 0 where
  -- x509: do the PEMs parse, and does the chain lead to one of them?
  pub chain_verifies : List Str → Certificate → Bool
  -- what the query for the tenant answered when tenantCache last loaded it: `none` for an error
  pub tenant_row : Str → Option (Option TenantRow)
  -- the PEM that deviceCACache has of the service or fetches from it, where there is such a cache
  pub device_ca : Option (Str → Str → Option Str)
  -- clusterRegistry.IsRevoked, where there is a cluster
  pub is_revoked : Option (Str → Bool)
  -- provider.LookupByCN and provider.ValidatePassword
  pub lookup_by_cn : Str → Str → Option DeviceInfo
  pub validate_password : Str → Str → Option DeviceInfo
  -- ValidateJWT and ValidateJWTFromClientID
  pub validate_jwt : Str → Str → Str → TenantGatewayConfig → Bool
  pub validate_jwt_from_client_id : Str → Str → Str → TenantGatewayConfig → Bool
  -- the text of the UUID that uuid.Parse returns, the zero UUID after an error
  pub parsed_uuid : Str → Str
  pub zero_uuid : Str
  pub default_tenant_id : Str

-- What CONNECT brings.
pub record Credentials : Type 0 where
  pub client_id : Str
  pub username : Str
  pub password : Str
  pub certificate : Option Certificate

-- An authenticated connection, and whether its device is being registered on the way.
pub record Authenticated : Type 0 where
  pub info : DeviceInfo
  pub method : AuthMethod
  pub provisions : Bool

abbrev both_parts : List Str → Option (Str × Str)
both_parts (device_id ∷ tenant_id ∷ []) =
    if is_nil device_id || is_nil tenant_id then none else some (device_id, tenant_id)
both_parts _ = none

abbrev pub at_sign : ℕ
at_sign = b'@'

-- The split of the common name by VerifyCertificate.
unfoldable pub cn_parts : Str → Option (Str × Str)
unfolding split_n
cn_parts cn = both_parts (split_n at_sign 1 cn)

module _ (env : Environment) where
  -- tenantCache.Get
  abbrev pub tenant_config : Str → Option TenantGatewayConfig
  tenant_config tenant_id = load_config (env.tenant_row tenant_id)

  abbrev pub verify_chain : Option (List Str) → Certificate → Bool
  verify_chain none c = true
  verify_chain (some []) c = false
  verify_chain (some (pem ∷ pems)) c = env.chain_verifies (pem ∷ pems) c

  -- VerifyCertificate: the device and the tenant. Without a list the chain is not checked.
  unfoldable pub verify_certificate : Certificate → Option (List Str) → Option (Str × Str)
  unfolding cn_parts
  verify_certificate c pems = do
    parts ← cn_parts c.common_name
    guard (verify_chain pems c)
    some parts

  abbrev pub is_identity_revoked : Option (Str → Bool) → Str → Bool
  is_identity_revoked none identity = false
  is_identity_revoked (some is_revoked) identity = is_revoked identity

  -- The CAs of the tenant, or of the service that its configuration names.
  abbrev pub cas_of :
      Str → TenantGatewayConfig → Option (Str → Str → Option Str) → Option (Option (List Str))
  cas_of tenant_id cfg none = some cfg.trusted_ca_pems
  cas_of tenant_id cfg (some fetch) =
      if is_nil cfg.clavex_ca_url
      then some cfg.trusted_ca_pems
      else fetched_pems (fetch tenant_id cfg.clavex_ca_url)

  -- NewPendingDeviceInfo.
  unfoldable pub pending_device_info : Str → Str → DeviceInfo
  pending_device_info device_id tenant_id = record {
    id = env.parsed_uuid device_id;
    tenant_id = env.parsed_uuid tenant_id;
    tenant_slug = codes "pending";
    identity = [];
  }

  -- The device that was looked up, or one that is to be registered.
  abbrev pub known_or_pending :
      Str → Str → TenantGatewayConfig → Option DeviceInfo → Option (DeviceInfo × Bool)
  unfolding pending_device_info
  known_or_pending device_id tenant_id cfg (some info) = some (info, false)
  known_or_pending device_id tenant_id cfg none =
      if cfg.auto_provisioning then some (pending_device_info device_id tenant_id, true) else none

  abbrev pub identity_of : Str × Str → Str
  identity_of parts = parts.0 ++ at_sign ∷ parts.1

  -- authenticateCert.
  unfoldable pub authenticate_cert : Certificate → Option Authenticated
  unfolding verify_certificate known_or_pending
  authenticate_cert c = do
    claimed ← verify_certificate c none
    cfg ← tenant_config claimed.1
    guard cfg.cert_auth_enabled
    pems ← cas_of claimed.1 cfg env.device_ca
    parts ← verify_certificate c pems
    guard (not (is_identity_revoked env.is_revoked (identity_of parts)))
    found ← known_or_pending parts.0 parts.1 cfg (env.lookup_by_cn parts.0 parts.1)
    some (record {
      info = record found.0 { identity = identity_of parts };
      method = auth_method_certificate;
      provisions = found.1;
    })

  -- The Google IoT Core mode: the client ID names tenant and device, the password is a JWT.
  unfoldable pub authenticate_client_id : Str → Str → Str → Option Authenticated
  unfolding detect_auth_method
  authenticate_client_id tenant_id device_id password = do
    cfg ← tenant_config tenant_id
    guard cfg.jwt_auth_enabled
    guard (env.validate_jwt_from_client_id tenant_id device_id password cfg)
    info ← env.lookup_by_cn device_id tenant_id
    some (record { info = info; method = detect_auth_method password; provisions = false })

  -- The case for a JWT.
  unfoldable pub authenticate_jwt : Str → Str → Str → TenantGatewayConfig → Option Authenticated
  authenticate_jwt tenant_id device_id password cfg = do
    guard cfg.jwt_auth_enabled
    guard (env.validate_jwt tenant_id device_id password cfg)
    info ← env.lookup_by_cn device_id tenant_id
    some (record { info = info; method = auth_method_jwt; provisions = false })

  -- The default case, a password.
  unfoldable pub authenticate_password : Str → Str → TenantGatewayConfig → Option Authenticated
  authenticate_password device_id password cfg = do
    guard cfg.password_auth_enabled
    info ← env.validate_password device_id password
    some (record { info = info; method = auth_method_password; provisions = false })

  abbrev pub names : Str → Str → List Str → Str × Str
  names client_id username (device_id ∷ tenant_id ∷ []) = (device_id, tenant_id)
  names client_id username _ =
      if is_nil username
      then (client_id, env.default_tenant_id)
      else (username, env.default_tenant_id)

  -- The device and the tenant that the user name, or else the client ID, names.
  unfoldable pub named_identity : Str → Str → Str × Str
  unfolding split_n
  named_identity client_id username = names client_id username (split_n at_sign 1 username)

  -- switch method
  abbrev pub by_method : Str × Str → Str → TenantGatewayConfig → Option Authenticated
  unfolding detect_auth_method authenticate_jwt authenticate_password str_eq
  by_method named password cfg =
      if str_eq (detect_auth_method password) auth_method_jwt
      then authenticate_jwt named.1 named.0 password cfg
      else authenticate_password named.0 password cfg

  -- The modes that go by the user name.
  unfoldable pub authenticate_username : Credentials → Option Authenticated
  unfolding named_identity by_method
  authenticate_username k = do
    let named = named_identity k.client_id k.username
    cfg ← tenant_config named.1
    by_method named k.password cfg

  abbrev pub test_consumer_username : Str
  test_consumer_username = codes "test-consumer"

  abbrev pub test_consumer_password : Str
  test_consumer_password = codes "consumer-e2e-testpass"

  -- testConsumerDeviceInfo.
  abbrev pub test_consumer_device_info : DeviceInfo
  test_consumer_device_info = record {
    id = env.zero_uuid;
    tenant_id = env.zero_uuid;
    tenant_slug = codes "test-consumer";
    identity = [];
  }

  -- The hard-coded role.
  unfoldable pub authenticate_test_consumer : Str → Option Authenticated
  unfolding str_eq
  authenticate_test_consumer password = do
    guard (str_eq password test_consumer_password)
    some (record {
      info = test_consumer_device_info;
      method = auth_method_test_consumer;
      provisions = false;
    })

  abbrev pub by_client_id : Credentials → Option (Str × Str) → Option Authenticated
  unfolding authenticate_client_id authenticate_username
  by_client_id k none = authenticate_username k
  by_client_id k (some (tenant_id, device_id)) =
      if is_nil k.password
      then authenticate_username k
      else authenticate_client_id tenant_id device_id k.password

  abbrev pub by_certificate : Credentials → Option Certificate → Option Authenticated
  unfolding authenticate_cert authenticate_test_consumer by_client_id parse_client_identifier str_eq
  by_certificate k (some c) = authenticate_cert c
  by_certificate k none =
      if str_eq k.username test_consumer_username
      then authenticate_test_consumer k.password
      else by_client_id k (parse_client_identifier k.client_id)

  -- authenticate: a certificate decides alone where there is one.
  unfoldable pub authenticate : Credentials → Option Authenticated
  unfolding by_certificate
  authenticate k = by_certificate k k.certificate
