-- ===== src/Examples/Connections.antt =====
-- Connections of a tenant that may have two.
use keel_mqtt_gateway.Prelude.{
  ℕ, ◌≡◌, ◌≤◌, refl, true, false, none, some, [], ◌∷◌, Str, codes, str_eq, lookup, if◌then◌else◌,
  arith,
}
use keel_mqtt_gateway.Broker.Device.{DeviceInfo, ClientState}
use keel_mqtt_gateway.Broker.Connections.{
  init, count_at, Attempt, registered, register, entry_of, next_generation, on_connect_authenticate,
  on_disconnect,
}
use keel_mqtt_gateway.Broker.Connections.World.{
  live_count, here, there, World, start, conn_of, Step, admits, disconnects, Reach, starts, steps,
}
use keel_mqtt_gateway.Broker.Connections.Counts.{Reach-live_count}
use keel_mqtt_gateway.Broker.Connections.Takeover.{failed_claim}

abbrev device : DeviceInfo
device = record {
  id = codes "d1";
  tenant_id = codes "t1";
  tenant_slug = codes "acme";
  identity = [];
}

abbrev two : Str → ℕ
two t = 2

abbrev c : Str
c = codes "c"

abbrev attempt : ℕ → Attempt
attempt p = record { client = p; client_id = c; username = codes "u" }

-- The client connects, and connects again while its first connection is open.
abbrev once : World
once = record {
  hook = registered (attempt 0) device (codes "password") init;
  live = conn_of (attempt 0) device ∷ [];
  next = 1;
}

abbrev twice : World
twice = record {
  hook = registered (attempt 1) device (codes "password") once.hook;
  live = conn_of (attempt 1) device ∷ conn_of (attempt 0) device ∷ [];
  next = 2;
}

first_step : Step two start once
unfolding register
first_step = admits start (attempt 0) device (codes "password") once.hook (omega arith) refl

second_step : Step two once twice
unfolding register registered count_at str_eq
second_step = admits once (attempt 1) device (codes "password") twice.hook (omega arith) refl

twice_reached : Reach two twice
twice_reached = steps once twice (steps start once starts first_step) second_step

Reach-live_count_example : live_count (codes "t1") twice.live ≤ 2
Reach-live_count_example = Reach-live_count two twice (codes "t1") twice_reached (omega arith)

abbrev second : ClientState
second = entry_of (attempt 1) device (codes "password") 2

twice_tracks : lookup c twice.hook.clients ≡ some second
unfolding registered count_at next_generation str_eq
twice_tracks = refl

-- The first connection's hook runs late.
abbrev after_late : World
after_late = record twice {
  hook = (on_disconnect true 0 c true true twice.hook).hook;
  live = conn_of (attempt 1) device ∷ [];
}

abbrev late_step : Step two twice after_late
late_step = disconnects twice 0 (conn_of (attempt 0) device) after_late.live true true true (
    there (conn_of (attempt 1) device) (conn_of (attempt 0) device)
      (conn_of (attempt 0) device ∷ []) [] (here (conn_of (attempt 0) device) [] refl))

failed_claim_example :
    let o =
      on_connect_authenticate
        (codes "n1")
        true
        true
        (some (device, codes "password"))
        (some 2)
        (some none)
        (attempt 1)
        once.hook in
    (o.ok ≡ false)
    × (o.effects ≡ [])
    × ((t : Str) → count_at t o.hook.tenant_conns ≡ count_at t once.hook.tenant_conns)
    × ((k : Str)
        → lookup k o.hook.clients ≡ (if str_eq c k then none else lookup k once.hook.clients))
unfolding count_at registered str_eq
failed_claim_example =
    failed_claim device (codes "password") once.hook (codes "n1") true (some 2) (attempt 1) refl
