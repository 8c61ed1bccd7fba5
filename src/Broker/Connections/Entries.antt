-- ===== src/Broker/Connections/Entries.antt =====
-- hooks.go: whose entry a hook may touch, and which hooks act.
use keel_mqtt_gateway.Prelude.{
  ℕ, ◌≡◌, ◌≢◌, subst, Bool, true, some, Str, str_eq_iff, lookup, delete, lookup-insert,
  lookup-delete, arith,
}
use keel_mqtt_gateway.Broker.Device.{DeviceInfo, AuthMethod, ClientState}
use keel_mqtt_gateway.Broker.Connections.{
  Hook, count_at, Attempt, entry_of, next_generation, registered, roll_back, is_current, forget,
  on_disconnect, on_client_expired,
}
use keel_mqtt_gateway.Broker.Connections.World.{
  World, Step, Reach, admits, refuses, disconnects, expires, starts, steps, register-some,
}

-- The generation of an entry is the one that is kept for its client ID.
abbrev pub IsNumbered : Hook → Type 0
IsNumbered h =
    (k : Str) (st : ClientState)
    → lookup k h.clients ≡ some st
    → count_at k h.generation ≡ st.generation

registered-IsNumbered :
    (a : Attempt) (info : DeviceInfo) (method : AuthMethod) (h : Hook)
    → IsNumbered h
    → IsNumbered (registered a info method h)
unfolding registered count_at
registered-IsNumbered a info method h i k st e =
    let g = next_generation a.client_id h.generation in
    ground (
      arith,
      lookup-insert a.client_id k
          (entry_of a info method (next_generation a.client_id h.generation)) h.clients,
      lookup-insert a.client_id k g h.generation,
      i k st,
    )

delete-IsNumbered :
    (client_id : Str) (h : Hook)
    → IsNumbered h
    → IsNumbered (record h { clients = delete client_id h.clients })
delete-IsNumbered client_id h i k st e = ground (arith, lookup-delete client_id k h.clients, i k st)

forget-IsNumbered : (client_id : Str) (h : Hook) → IsNumbered h → IsNumbered (forget client_id h)
unfolding forget count_at
forget-IsNumbered client_id h i k st e =
    ground
      (arith, lookup-delete client_id k h.clients, lookup-delete client_id k h.generation, i k st)

on_disconnect-IsNumbered :
    (r expire evicted : Bool) (p : ℕ) (client_id : Str) (h : Hook)
    → IsNumbered h
    → IsNumbered (on_disconnect r p client_id expire evicted h).hook
unfolding on_disconnect
on_disconnect-IsNumbered r expire evicted p client_id h i k st e =
    ground (arith, i k st, forget-IsNumbered client_id h i k st)

on_client_expired-IsNumbered :
    (p : ℕ) (client_id : Str) (h : Hook)
    → IsNumbered h
    → IsNumbered (on_client_expired p client_id h).hook
unfolding on_client_expired
on_client_expired-IsNumbered p client_id h i k st e =
    ground (arith, i k st, forget-IsNumbered client_id h i k st)

Step-IsNumbered :
    (limit : Str → ℕ) (v w : World) → IsNumbered v.hook → Step limit v w → IsNumbered w.hook
Step-IsNumbered limit _ _ i (admits v a info method h le e) =
    subst IsNumbered (register-some a info method (some (limit info.tenant_id)) v.hook h e).1
      (registered-IsNumbered a info method v.hook i)
Step-IsNumbered limit _ _ i (refuses v p c rest k) =
    unfold roll_back in delete-IsNumbered c.client_id v.hook i
Step-IsNumbered limit _ _ i (disconnects v p c rest r expire evicted k) =
    on_disconnect-IsNumbered r expire evicted p c.client_id v.hook i
Step-IsNumbered limit _ _ i (expires v p client_id) =
    on_client_expired-IsNumbered p client_id v.hook i

Reach-IsNumbered : (limit : Str → ℕ) (w : World) → Reach limit w → IsNumbered w.hook
unfolding lookup
Reach-IsNumbered limit _ starts = λ k st e. cc
Reach-IsNumbered limit w (steps v _ r s) = Step-IsNumbered limit v w (Reach-IsNumbered limit v r) s

-- In every state that is reached from no connection, the hook of a connection that an entry tracks
-- acts: the generation of the entry is the one that is kept, so that the guard on it never holds a
-- cleanup back.
pub Reach-on_disconnect :
    (limit : Str → ℕ) (w : World) (client_id : Str) (st : ClientState)
    (has_registry expire evicted : Bool)
    → Reach limit w
    → lookup client_id w.hook.clients ≡ some st
    → (on_disconnect has_registry st.client client_id expire evicted w.hook).ok ≡ true
unfolding on_disconnect is_current
Reach-on_disconnect limit w client_id st has_registry expire evicted r e =
    ground (arith, Reach-IsNumbered limit w r client_id st e)

-- A step that is not about the client ID's admission or refusal, nor about the connection itself.
abbrev pub Spares : Str → ℕ → {limit : Str → ℕ} {v w : World} → Step limit v w → Type 0
Spares id p (admits v a info method h le e) = a.client_id ≢ id
Spares id p (refuses v q c rest k) = c.client_id ≢ id
Spares id p (disconnects v q c rest r expire evicted k) = q ≢ p
Spares id p (expires v q client_id) = q ≢ p

pub data Sparing (limit : Str → ℕ) (id : Str) (p : ℕ) : World → World → Type 0 where
  stays : (w : World) → Sparing limit id p w w
  goes_by :
      (u v w : World) (s : Step limit u v)
      → Spares id p s
      → Sparing limit id p v w
      → Sparing limit id p u w

Spares-lookup :
    (limit : Str → ℕ) (v w : World) (id : Str) (st : ClientState)
    → (s : Step limit v w) → Spares id st.client s
    → lookup id v.hook.clients ≡ some st
    → lookup id w.hook.clients ≡ some st
unfolding on_disconnect on_client_expired forget is_current roll_back registered
Spares-lookup limit _ _ id st (admits v a info method h le q) n e =
    subst (λ (x : Hook). lookup id x.clients ≡ some st)
      (register-some a info method (some (limit info.tenant_id)) v.hook h q).1
      (ground (
        arith,
        lookup-insert a.client_id id
            (entry_of a info method (next_generation a.client_id v.hook.generation)) v.hook.clients,
        str_eq_iff a.client_id id,
      ))
Spares-lookup limit _ _ id st (refuses v p c rest k) n e =
    ground (arith, lookup-delete c.client_id id v.hook.clients, str_eq_iff c.client_id id)
Spares-lookup limit _ _ id st (disconnects v p c rest r expire evicted k) n e =
    ground (arith, lookup-delete c.client_id id v.hook.clients, str_eq_iff c.client_id id)
Spares-lookup limit _ _ id st (expires v p client_id) n e =
    ground (arith, lookup-delete client_id id v.hook.clients, str_eq_iff client_id id)

-- The entry of a connection stays as it is through any steps but an admission or a refusal under
-- its client ID and the hooks of that connection itself: the late hook of an older connection of
-- the same client takes nothing from it.
pub Sparing-lookup :
    (limit : Str → ℕ) (id : Str) (st : ClientState) (v w : World)
    → Sparing limit id st.client v w
    → lookup id v.hook.clients ≡ some st
    → lookup id w.hook.clients ≡ some st
Sparing-lookup limit id st v _ (stays _) e = e
Sparing-lookup limit id st u w (goes_by _ v _ s n t) e =
    Sparing-lookup limit id st v w t (Spares-lookup limit u v id st s n e)
