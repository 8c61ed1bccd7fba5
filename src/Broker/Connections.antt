-- ===== src/Broker/Connections.antt =====
-- internal/broker/hooks.go: what the hooks keep of each connection, and what they do when one
-- comes, goes, or ends for good. Each function is one critical section, or a hook that has one
-- call outside it; the outcome of authentication, the tenant's configuration and the answer of the
-- registry are inputs. The generation is a 64-bit number.
pub mod World
pub mod Takeover
pub mod Counts
pub mod Entries
use keel_mqtt_gateway.Prelude.{
  ℕ, ◌+◌, ◌-◌, ◌%◌, ◌^◌, Bool, true, false, not, ◌&&◌, ◌||◌, Option, none, some, List, [], ◌∷◌,
  ◌++◌, Str, Dict, str_eq, lookup, insert, delete, is_nil, ltb, leb, ◌==◌, if◌then◌else◌,
}
use keel_mqtt_gateway.Broker.Device.{DeviceInfo, AuthMethod, ClientState}

-- keelHook, of which this is the state that these operations read and write.
pub record Hook : Type 0 where
  pub clients : Dict ClientState
  pub generation : Dict ℕ
  pub tenant_conns : Dict ℕ

-- Init.
abbrev pub init : Hook
init = record { clients = []; generation = []; tenant_conns = [] }

-- A missing key reads as 0.
abbrev pub or_zero : Option ℕ → ℕ
or_zero none = 0
or_zero (some n) = n

unfoldable pub count_at : Str → Dict ℕ → ℕ
unfolding lookup
count_at k m = or_zero (lookup k m)

-- if h.tenantConns[ts] > 0 { h.tenantConns[ts]-- }
unfoldable pub count_down : Str → Dict ℕ → Dict ℕ
unfolding count_at insert
count_down k m = if ltb 0 (count_at k m) then insert k (count_at k m - 1) m else m

-- What CONNECT and DISCONNECT ask of the other parts.
pub data HookEffect : Type 0 where
  update_last_seen : Str → HookEffect
  connection_event : Str → Bool → HookEffect
  evicts : Str → Str → HookEffect
  place_offline_ownership : Str → HookEffect
  unsubscribes_filters : Str → HookEffect
  releases_session : Str → HookEffect

-- One connection that asks to be admitted: its pointer, its client ID, and its user name.
pub record Attempt : Type 0 where
  pub client : ℕ
  pub client_id : Str
  pub username : Str

abbrev pub is_full : Option ℕ → ℕ → Bool
is_full none connections = false
is_full (some max_connections) connections =
    ltb 0 max_connections && leb max_connections connections

abbrev pub entry_of : Attempt → DeviceInfo → AuthMethod → ℕ → ClientState
entry_of a info method generation = record {
  info = info;
  method = method;
  username = a.username;
  client = a.client;
  generation = generation;
}

-- h.generation[cl.ID]++
unfoldable pub next_generation : Str → Dict ℕ → ℕ
unfolding count_at
next_generation client_id m = (count_at client_id m + 1) % 2 ^ 64

-- The assignments of OnConnectAuthenticate under its lock.
unfoldable pub registered : Attempt → DeviceInfo → AuthMethod → Hook → Hook
unfolding count_at next_generation insert
registered a info method h =
    let generation = next_generation a.client_id h.generation in
    record {
      clients = insert a.client_id (entry_of a info method generation) h.clients;
      generation = insert a.client_id generation h.generation;
      tenant_conns =
          insert info.tenant_id (count_at info.tenant_id h.tenant_conns + 1) h.tenant_conns;
    }

-- The critical section of OnConnectAuthenticate: `none` is a tenant with no connection left.
unfoldable pub register : Attempt → DeviceInfo → AuthMethod → Option ℕ → Hook → Option Hook
unfolding count_at registered
register a info method max_connections h =
    if is_full max_connections (count_at info.tenant_id h.tenant_conns)
    then none
    else some (registered a info method h)

-- The critical section of claimClusterSession, after a claim that failed.
unfoldable pub roll_back : Str → Str → Hook → Hook
unfolding delete count_down
roll_back client_id tenant_id h = record h {
  clients = delete client_id h.clients;
  tenant_conns = count_down tenant_id h.tenant_conns;
}

-- What a hook leaves: the state, whether it admitted or acted on the connection, and the calls it made.
pub record HookOutcome : Type 0 where
  pub hook : Hook
  pub ok : Bool
  pub effects : List HookEffect

-- The registry's answer to a claim: an error, or the node that owned the session before.
abbrev pub ClaimResult : Type 0
ClaimResult = Option Str

-- evictedFrom != "" && evictedFrom != h.clusterNodeID && h.clusterFwd != nil
unfoldable pub evictions : Str → Bool → Str → Str → List HookEffect
unfolding str_eq
evictions node_id has_forwarder client_id evicted_from =
    if not (is_nil evicted_from) && (not (str_eq evicted_from node_id) && has_forwarder)
    then evicts evicted_from client_id ∷ []
    else []

-- claimClusterSession; without a cluster nothing is claimed.
unfoldable pub claim_cluster_session :
    Str → Bool → Str → Str → Option ClaimResult → Hook → HookOutcome
unfolding evictions roll_back
claim_cluster_session node_id has_forwarder client_id tenant_id none h = record {
  hook = h;
  ok = true;
  effects = [];
}
claim_cluster_session node_id has_forwarder client_id tenant_id (some none) h = record {
  hook = roll_back client_id tenant_id h;
  ok = false;
  effects = [];
}
claim_cluster_session node_id has_forwarder client_id tenant_id (some (some evicted_from)) h =
    record { hook = h; ok = true; effects = evictions node_id has_forwarder client_id evicted_from }

-- OnConnectAuthenticate, once the session is claimed.
abbrev pub welcome : DeviceInfo → HookOutcome → HookOutcome
welcome info o =
    if o.ok
    then record o {
      effects = o.effects ++ update_last_seen info.id ∷ connection_event info.id true ∷ [];
    }
    else o

module _ (node_id : Str) (has_forwarder : Bool) where
  abbrev pub claim_registered :
      Attempt → DeviceInfo → Option ClaimResult → Hook → Option Hook → HookOutcome
  unfolding claim_cluster_session
  claim_registered a info claim h none = record { hook = h; ok = false; effects = [] }
  claim_registered a info claim h (some registered) =
      welcome info
        (claim_cluster_session node_id has_forwarder a.client_id info.tenant_id claim registered)

  -- OnConnectAuthenticate: the limit on attempts, authentication, the tenant's limit, the claim.
  unfoldable pub on_connect_authenticate :
      Bool
      → Option (DeviceInfo × AuthMethod)
      → Option ℕ
      → Option ClaimResult
      → Attempt
      → Hook
      → HookOutcome
  unfolding register claim_registered
  on_connect_authenticate within_rate none max_connections claim a h = record {
    hook = h;
    ok = false;
    effects = [];
  }
  on_connect_authenticate within_rate (some (info, method)) max_connections claim a h =
      if not within_rate
      then record { hook = h; ok = false; effects = [] }
      else claim_registered a info claim h (register a info method max_connections h)

-- state.client == cl && state.generation == h.generation[cl.ID]
abbrev pub is_current : ℕ → Str → Option ClientState → Hook → Bool
unfolding count_at
is_current client client_id none h = false
is_current client client_id (some state) h =
    state.client == client && state.generation == count_at client_id h.generation

abbrev pub forget : Str → Hook → Hook
unfolding delete
forget client_id h = record h {
  clients = delete client_id h.clients;
  generation = delete client_id h.generation;
}

abbrev pub tenant_of : Option ClientState → Str
tenant_of none = []
tenant_of (some state) = state.info.tenant_id

abbrev pub device_of : Option ClientState → Str
device_of none = []
device_of (some state) = state.info.id

-- OnDisconnect. A session that another node took over ends here too.
unfoldable pub on_disconnect : Bool → ℕ → Str → Bool → Bool → Hook → HookOutcome
unfolding lookup count_down forget is_current
on_disconnect has_registry client client_id expire evicted h =
    let cleanup = expire || evicted in
    let state = lookup client_id h.clients in
    let counted = record h { tenant_conns = count_down (tenant_of state) h.tenant_conns } in
    if not (is_current client client_id state h)
    then record { hook = h; ok = false; effects = [] }
    else record {
      hook = if cleanup then forget client_id counted else counted;
      ok = true;
      effects =
          connection_event (device_of state) false
            ∷ (if cleanup then [] else place_offline_ownership client_id ∷ [])
          ++ unsubscribes_filters client_id
            ∷ (if has_registry then releases_session client_id ∷ [] else []);
    }

abbrev pub is_tracked : ℕ → Option ClientState → Bool
is_tracked client none = false
is_tracked client (some state) = state.client == client

-- OnClientExpired.
unfoldable pub on_client_expired : ℕ → Str → Hook → HookOutcome
unfolding lookup forget
on_client_expired client client_id h =
    if is_tracked client (lookup client_id h.clients)
    then record {
      hook = forget client_id h;
      ok = true;
      effects = unsubscribes_filters client_id ∷ [];
    }
    else record { hook = h; ok = false; effects = [] }
