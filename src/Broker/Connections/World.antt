-- ===== src/Broker/Connections/World.antt =====
-- hooks.go: the critical sections of the hooks as steps, with the connections that are open.
use keel_mqtt_gateway.Prelude.{
  ℕ, suc, ◌+◌, ◌-◌, ◌≤◌, ◌≡◌, ◌⊎◌, refl, Bool, true, false, Option, some, List, [], ◌∷◌, Str, Dict,
  str_eq, str_eq_iff, lookup, lookup-insert, insert, delete, lookup-delete, All, if◌then◌else◌,
  arith,
}
use keel_mqtt_gateway.Broker.Device.{DeviceInfo, AuthMethod, ClientState}
use keel_mqtt_gateway.Broker.Connections.{
  Hook, init, count_at, count_down, Attempt, is_full, entry_of, next_generation, registered,
  register, roll_back, is_current, tenant_of, on_disconnect, on_client_expired,
}

pub count_at-insert :
    (k j : Str) (v : ℕ) (m : Dict ℕ)
    → count_at j (insert k v m) ≡ (if str_eq k j then v else count_at j m)
unfolding count_at
count_at-insert k j v m = ground (arith, lookup-insert k j v m)

pub count_at-count_down :
    (k j : Str) (m : Dict ℕ)
    → count_at j (count_down k m) ≡ (if str_eq k j then count_at j m - 1 else count_at j m)
unfolding count_down
count_at-count_down k j m = ground (arith, count_at-insert k j (count_at k m - 1) m, str_eq_iff k j)

-- A connection that was admitted and whose OnDisconnect has not run.
pub record Conn : Type 0 where
  pub client : ℕ
  pub client_id : Str
  pub tenant_id : Str

abbrev pub one_if : Bool → ℕ
one_if true = 1
one_if false = 0

-- How many of the connections are a tenant's.
unfoldable pub live_count : Str → List Conn → ℕ
live_count t [] = 0
live_count t (c ∷ live) = one_if (str_eq c.tenant_id t) + live_count t live

-- One of the connections, with its pointer, and the others.
pub data Picks (p : ℕ) : List Conn → Conn → List Conn → Type 0 where
  here : (c : Conn) (live : List Conn) → c.client ≡ p → Picks p (c ∷ live) c live
  there :
      (d c : Conn) (live rest : List Conn) → Picks p live c rest → Picks p (d ∷ live) c (d ∷ rest)

-- The hooks' state, the connections, and a bound on the pointers that were handed out.
pub record World : Type 0 where
  pub hook : Hook
  pub live : List Conn
  pub next : ℕ

abbrev pub start : World
start = record { hook = init; live = []; next = 0 }

abbrev pub conn_of : Attempt → DeviceInfo → Conn
conn_of a info = record { client = a.client; client_id = a.client_id; tenant_id = info.tenant_id }

-- A step is one critical section: an admission under the tenant's limit with a pointer of its own,
-- the roll-back of a failed claim, the hook of a connection that ended, or the end of a session.
pub data Step (limit : Str → ℕ) : World → World → Type 0 where
  admits :
      (w : World) (a : Attempt) (info : DeviceInfo) (method : AuthMethod) (h : Hook)
      → w.next ≤ a.client
      → register a info method (some (limit info.tenant_id)) w.hook ≡ some h
      → Step limit w (record { hook = h; live = conn_of a info ∷ w.live; next = suc a.client })
  refuses :
      (w : World) (p : ℕ) (c : Conn) (rest : List Conn)
      → Picks p w.live c rest
      → Step limit w (record w { hook = roll_back c.client_id c.tenant_id w.hook; live = rest })
  disconnects :
      (w : World) (p : ℕ) (c : Conn) (rest : List Conn) (has_registry expire evicted : Bool)
      → Picks p w.live c rest
      → Step limit w (record w {
        hook = (on_disconnect has_registry p c.client_id expire evicted w.hook).hook;
        live = rest;
      })
  expires :
      (w : World) (p : ℕ) (client_id : Str)
      → Step limit w (record w { hook = (on_client_expired p client_id w.hook).hook })

pub data Reach (limit : Str → ℕ) : World → Type 0 where
  starts : Reach limit start
  steps : (v w : World) → Reach limit v → Step limit v w → Reach limit w

pub Picks-count :
    (p : ℕ) (live : List Conn) (c : Conn) (rest : List Conn)
    → Picks p live c rest
    → (t : Str) → live_count t live ≡ one_if (str_eq c.tenant_id t) + live_count t rest
unfolding live_count
Picks-count p _ c _ (here _ live e) t = refl
Picks-count p _ c _ (there d _ live rest k) t = omega (arith, Picks-count p live c rest k t)

pub Picks-client :
    (p : ℕ) (live : List Conn) (c : Conn) (rest : List Conn) → Picks p live c rest → c.client ≡ p
Picks-client p _ c _ (here _ live e) = e
Picks-client p _ c _ (there d _ live rest k) = Picks-client p live c rest k

pub Picks-All {κ} :
    (P : Conn → Type κ) (p : ℕ) (live : List Conn) (c : Conn) (rest : List Conn)
    → Picks p live c rest
    → All P live
    → P c × All P rest
Picks-All P p _ c _ (here _ live e) a = a
Picks-All P p _ c _ (there d _ live rest k) a =
    let (x, y) = Picks-All P p live c rest k a.1 in (x, (a.0, y))

pub register-some :
    (a : Attempt) (info : DeviceInfo) (method : AuthMethod) (mx : Option ℕ) (h h' : Hook)
    → register a info method mx h ≡ some h'
    → (is_full mx (count_at info.tenant_id h.tenant_conns) ≡ false)
      × (registered a info method h ≡ h')
unfolding register
register-some a info method mx h h' e = ground arith

pub lookup-registered :
    (k : Str) (a : Attempt) (info : DeviceInfo) (method : AuthMethod) (h : Hook) (st : ClientState)
    → lookup k (registered a info method h).clients ≡ some st
    → ((st.client ≡ a.client) × (st.info ≡ info)) ⊎ (lookup k h.clients ≡ some st)
unfolding registered
lookup-registered k a info method h st e = ground (
  arith,
  lookup-insert a.client_id k (entry_of a info method (next_generation a.client_id h.generation))
      h.clients,
)

pub lookup-forgotten :
    (k client_id : Str) (m : Dict ClientState) (st : ClientState)
    → lookup k (delete client_id m) ≡ some st
    → lookup k m ≡ some st
lookup-forgotten k client_id m st e = ground (arith, lookup-delete client_id k m)

pub disconnect-clients :
    (r expire evicted : Bool) (p : ℕ) (client_id k : Str) (h : Hook) (st : ClientState)
    → lookup k (on_disconnect r p client_id expire evicted h).hook.clients ≡ some st
    → lookup k h.clients ≡ some st
unfolding on_disconnect
disconnect-clients r expire evicted p client_id k h st e =
    ground (arith, lookup-forgotten k client_id h.clients st)

pub disconnect-conns :
    (r expire evicted : Bool) (p : ℕ) (client_id : Str) (h : Hook)
    → let state = lookup client_id h.clients in
      (on_disconnect r p client_id expire evicted h).hook.tenant_conns ≡ (
        if is_current p client_id state h
        then count_down (tenant_of state) h.tenant_conns
        else h.tenant_conns)
unfolding on_disconnect
disconnect-conns r expire evicted p client_id h = ground arith

pub expire-clients :
    (p : ℕ) (client_id k : Str) (h : Hook) (st : ClientState)
    → lookup k (on_client_expired p client_id h).hook.clients ≡ some st
    → lookup k h.clients ≡ some st
unfolding on_client_expired
expire-clients p client_id k h st e = ground (arith, lookup-forgotten k client_id h.clients st)

pub expire-conns :
    (p : ℕ) (client_id : Str) (h : Hook)
    → (on_client_expired p client_id h).hook.tenant_conns ≡ h.tenant_conns
unfolding on_client_expired
expire-conns p client_id h = ground arith
