-- ===== src/Broker/Device.antt =====
-- internal/auth/auth.go and hooks.go: the identity of a connection. A UUID is the text of its
-- String method; a pointer to a client is a number, another one for each connection.
use keel_mqtt_gateway.Prelude.{ℕ, Str, codes}

-- DeviceInfo. The fleet is not read here.
pub record DeviceInfo : Type 0 where
  pub id : Str
  pub tenant_id : Str
  pub tenant_slug : Str
  pub identity : Str

-- AuthMethod.
abbrev pub AuthMethod : Type 0
AuthMethod = Str

abbrev pub auth_method_test_consumer : AuthMethod
auth_method_test_consumer = codes "test-consumer-role"

-- clientState.
pub record ClientState : Type 0 where
  pub info : DeviceInfo
  pub method : AuthMethod
  pub username : Str
  pub client : ℕ
  pub generation : ℕ
