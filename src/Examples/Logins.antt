-- ===== src/Examples/Logins.antt =====
-- Tenant "a" allows certificates only, every other tenant has no row; device "d" is of tenant "a".
use keel_mqtt_gateway.Prelude.{
  ◌≡◌, refl, true, false, none, some, [], ◌∷◌, ◌++◌, Str, codes, str_eq, if◌then◌else◌,
}
use keel_mqtt_gateway.Broker.Device.{DeviceInfo}
use keel_mqtt_gateway.Broker.Authenticate.{
  TenantRow, Environment, Credentials, Authenticated, authenticate, auth_method_certificate,
}
use keel_mqtt_gateway.Broker.Authenticate.Vouched.{Vouched, authenticate-Vouched}

abbrev row_a : TenantRow
row_a = record {
  row_password_auth_enabled = false;
  row_jwt_auth_enabled = false;
  row_cert_auth_enabled = true;
  row_trusted_ca_pems = codes "CA" ∷ [];
  row_clavex_ca_url = [];
  row_auto_provisioning = false;
}

abbrev device_d : DeviceInfo
device_d = record { id = codes "d"; tenant_id = codes "a"; tenant_slug = codes "a"; identity = [] }

abbrev environment : Environment
environment = record {
  chain_verifies = λ pems c. true;
  tenant_row = λ t. if str_eq t (codes "a") then some (some row_a) else some none;
  device_ca = none;
  is_revoked = some (λ identity. str_eq identity (codes "x@a"));
  lookup_by_cn = λ d t. some device_d;
  validate_password = λ d p. some device_d;
  validate_jwt = λ t d p cfg. false;
  validate_jwt_from_client_id = λ t d p cfg. false;
  parsed_uuid = λ s. s;
  zero_uuid = codes "0";
  default_tenant_id = [];
}

abbrev with_password_at : Str → Credentials
with_password_at tenant = record {
  client_id = codes "c";
  username = codes "d@" ++ tenant;
  password = codes "secret";
  certificate = none;
}

own_tenant_refuses : authenticate environment (with_password_at (codes "a")) ≡ none
unfolding authenticate
own_tenant_refuses = refl

abbrev with_certificate : Credentials
with_certificate = record {
  client_id = codes "c";
  username = [];
  password = [];
  certificate = some (record { common_name = codes "d@a"; raw = [] });
}

abbrev vouched_login : Authenticated
vouched_login = record {
  info = record device_d { identity = codes "d@a" };
  method = auth_method_certificate;
  provisions = false;
}

certificate_admits : authenticate environment with_certificate ≡ some vouched_login
unfolding authenticate
certificate_admits = refl

authenticate-Vouched_example : Vouched environment with_certificate vouched_login
authenticate-Vouched_example =
    authenticate-Vouched environment with_certificate vouched_login certificate_admits
