-- ===== src/Broker/Connections/Takeover.antt =====
-- hooks.go: a client that connects again on the node where it is connected.
use keel_mqtt_gateway.Prelude.{
  ℕ, ◌+◌, ◌≡◌, ◌≢◌, refl, Bool, true, false, Option, none, some, [], Str, str_eq, str_eq_iff,
  str_eq_refl, lookup, lookup-insert, lookup-delete, if◌then◌else◌, arith,
}
use keel_mqtt_gateway.Broker.Device.{DeviceInfo, AuthMethod}
use keel_mqtt_gateway.Broker.Connections.{
  Hook, count_at, count_down, Attempt, is_full, entry_of, next_generation, registered, register,
  roll_back, claim_cluster_session, on_connect_authenticate, claim_registered, is_current,
  on_disconnect,
}
use keel_mqtt_gateway.Broker.Connections.World.{
  count_at-insert, count_at-count_down, disconnect-conns,
}

stale_disconnect :
    (r expire evicted : Bool) (p : ℕ) (client_id : Str) (h : Hook)
    → is_current p client_id (lookup client_id h.clients) h ≡ false
    → (on_disconnect r p client_id expire evicted h).hook ≡ h
unfolding on_disconnect
stale_disconnect r expire evicted p client_id h e = ground arith

module _ (info : DeviceInfo) (method : AuthMethod) (h : Hook) where
  refused_claim :
      (node_id : Str) (has_forwarder : Bool) (mx : Option ℕ) (a : Attempt)
      → is_full mx (count_at info.tenant_id h.tenant_conns) ≡ false
      → on_connect_authenticate node_id has_forwarder true (some (info, method)) mx (some none) a h
        ≡ record {
          hook = roll_back a.client_id info.tenant_id (registered a info method h);
          ok = false;
          effects = [];
        }
  unfolding on_connect_authenticate claim_registered register claim_cluster_session
  refused_claim node_id has_forwarder mx a e = rw e refl

  lookup-registered-own :
      (a : Attempt)
      → lookup a.client_id (registered a info method h).clients
        ≡ some (entry_of a info method (next_generation a.client_id h.generation))
  unfolding registered
  lookup-registered-own a = ground (
    arith,
    lookup-insert a.client_id a.client_id
        (entry_of a info method (next_generation a.client_id h.generation)) h.clients,
    str_eq_refl a.client_id,
  )

  generation-registered-own :
      (a : Attempt)
      → count_at a.client_id (registered a info method h).generation
        ≡ next_generation a.client_id h.generation
  unfolding registered
  generation-registered-own a = ground (
    arith,
    count_at-insert a.client_id a.client_id (next_generation a.client_id h.generation) h.generation,
    str_eq_refl a.client_id,
  )

  count-registered :
      (a : Attempt) (t : Str)
      → count_at t (registered a info method h).tenant_conns ≡ (
          if str_eq info.tenant_id t
          then count_at t h.tenant_conns + 1
          else count_at t h.tenant_conns)
  unfolding registered
  count-registered a t = ground (
    arith,
    count_at-insert info.tenant_id t (count_at info.tenant_id h.tenant_conns + 1) h.tenant_conns,
    str_eq_iff info.tenant_id t,
  )

  -- A connection that is within the limits and whose claim fails is refused and asks nothing of
  -- other parts; every tenant's count is as before, and so is every entry but that of the client
  -- ID, which is gone, even where it was of an earlier connection.
  pub failed_claim :
      (node_id : Str) (has_forwarder : Bool) (mx : Option ℕ) (a : Attempt)
      → is_full mx (count_at info.tenant_id h.tenant_conns) ≡ false
      → let o =
          on_connect_authenticate node_id has_forwarder true
            (some (info, method))
            mx
            (some none)
            a
            h in
        (o.ok ≡ false)
        × (o.effects ≡ [])
        × ((t : Str) → count_at t o.hook.tenant_conns ≡ count_at t h.tenant_conns)
        × ((k : Str)
            → lookup k o.hook.clients ≡ (if str_eq a.client_id k then none else lookup k h.clients))
  unfolding roll_back
  failed_claim node_id has_forwarder mx a e = rw (refused_claim node_id has_forwarder mx a e) (
    refl,
    refl,
    λ t. ground (
      arith,
      count_at-count_down info.tenant_id t (registered a info method h).tenant_conns,
      count-registered a t,
    ),
    λ k.
        unfold registered in
        ground (
          arith,
          lookup-delete a.client_id k (registered a info method h).clients,
          lookup-insert a.client_id k
              (entry_of a info method (next_generation a.client_id h.generation)) h.clients,
        ),
  )

-- The hook of the older connection leaves the state to the newer one.
superseded :
    (r expire evicted : Bool) (p : ℕ) (info : DeviceInfo) (method : AuthMethod) (b : Attempt)
    (h : Hook)
    → p ≢ b.client
    → let there = registered b info method h in
      (on_disconnect r p b.client_id expire evicted there).hook ≡ there
unfolding is_current
superseded r expire evicted p info method b h n =
    stale_disconnect r expire evicted p b.client_id (registered b info method h)
      (rw (lookup-registered-own info method h b) (ground arith))

-- The hook of the newest connection takes one from its tenant's count.
own_disconnect :
    (r expire evicted : Bool) (info : DeviceInfo) (method : AuthMethod) (b : Attempt) (h : Hook)
    → (on_disconnect r b.client b.client_id expire evicted
        (registered b info method h)).hook.tenant_conns
      ≡ count_down info.tenant_id (registered b info method h).tenant_conns
unfolding is_current
own_disconnect r expire evicted info method b h =
    rw
      (
        disconnect-conns r expire evicted b.client b.client_id (registered b info method h),
        lookup-registered-own info method h b,
      )
      (ground (arith, generation-registered-own info method h b))

-- When a client connects again while its connection is open, and then both connections end, the
-- older one first, the tenant's count is one higher than before they came.
pub takeover_counts :
    (info : DeviceInfo) (method : AuthMethod) (h : Hook) (r expire expire' : Bool)
    (client_id username username' : Str) (p q : ℕ)
    → p ≢ q
    → let a : Attempt = record { client = p; client_id = client_id; username = username } in
      let b : Attempt = record { client = q; client_id = client_id; username = username' } in
      let there = registered b info method (registered a info method h) in
      let after = (on_disconnect r p client_id expire true there).hook in
      let last = (on_disconnect r q client_id expire' false after).hook in
      count_at info.tenant_id last.tenant_conns ≡ count_at info.tenant_id h.tenant_conns + 1
takeover_counts info method h r expire expire' client_id username username' p q n =
    let a : Attempt = record { client = p; client_id = client_id; username = username } in
    let b : Attempt = record { client = q; client_id = client_id; username = username' } in
    let first = registered a info method h in
    rw
      (
        superseded r expire true p info method b first n,
        own_disconnect r expire' false info method b first,
        count_at-count_down info.tenant_id info.tenant_id
            (registered b info method first).tenant_conns,
        count-registered info method first b info.tenant_id,
        count-registered info method h a info.tenant_id,
        str_eq_refl info.tenant_id,
      )
      (omega arith)
