-- ===== src/Broker/Connections/Counts.antt =====
-- hooks.go: the connections of a tenant against its limit, through any interleaving of the
-- critical sections of connections that come, are refused, go and expire.
use keel_mqtt_gateway.Prelude.{
  ℕ, suc, ◌+◌, ◌-◌, ◌≤◌, ◌<◌, ◌≡◌, refl, sym, ap, subst, inl, inr, Bool, true, false, Option, none,
  some, List, ◌∷◌, Str, Dict, str_eq, str_eq_iff, lookup, All-mono, All, if◌then◌else◌, if_cases,
  arith,
}
use keel_mqtt_gateway.Broker.Device.{DeviceInfo, AuthMethod, ClientState}
use keel_mqtt_gateway.Broker.Connections.{
  Hook, count_at, count_down, Attempt, is_full, registered, register, roll_back, is_current,
  tenant_of, on_disconnect, on_client_expired,
}
use keel_mqtt_gateway.Broker.Connections.World.{
  count_at-insert, count_at-count_down, Conn, one_if, live_count, Picks, World, start, conn_of,
  Step, Reach, admits, refuses, disconnects, expires, starts, steps, Picks-count, Picks-client,
  Picks-All, register-some, lookup-registered, lookup-forgotten, disconnect-clients,
  disconnect-conns, expire-clients, expire-conns,
}

-- A live connection with the pointer of an entry is of the entry's tenant.
abbrev pub Owns : ClientState → Conn → Type 0
Owns st c = c.client ≡ st.client → c.tenant_id ≡ st.info.tenant_id

pub record IsCounted (limit : Str → ℕ) (w : World) : Type 0 where
  pub counted : (t : Str) → live_count t w.live ≤ count_at t w.hook.tenant_conns
  pub limited : (t : Str) → 0 < limit t → count_at t w.hook.tenant_conns ≤ limit t
  pub below : All (λ (c : Conn). c.client < w.next) w.live
  pub entries :
      (k : Str) (st : ClientState)
      → lookup k w.hook.clients ≡ some st
      → (st.client < w.next) × All (Owns st) w.live

start-IsCounted : (limit : Str → ℕ) → IsCounted limit start
unfolding live_count count_at lookup
start-IsCounted limit = record {
  counted = λ t. omega arith;
  limited = λ t h. omega arith;
  below = tt;
  entries = λ k st e. cc;
}

-- Fewer connections, fewer entries and lower counts keep it.
weaken :
    (limit : Str → ℕ) (w : World) (h : Hook) (p : ℕ) (c : Conn) (rest : List Conn)
    → Picks p w.live c rest
    → IsCounted limit w
    → ((k : Str) (st : ClientState)
        → lookup k h.clients ≡ some st
        → lookup k w.hook.clients ≡ some st)
    → ((t : Str) → live_count t rest ≤ count_at t h.tenant_conns)
    → ((t : Str) → count_at t h.tenant_conns ≤ count_at t w.hook.tenant_conns)
    → IsCounted limit (record w { hook = h; live = rest })
weaken limit w h p c rest k i sub lo hi = record {
  counted = lo;
  limited = λ t l. omega (arith, hi t, i.limited t l);
  below = (Picks-All (λ (c : Conn). c.client < w.next) p w.live c rest k i.below).1;
  entries = λ key st e.
      let (b, a) = i.entries key st (sub key st e) in
      (b, (Picks-All (Owns st) p w.live c rest k a).1);
}

-- The connection whose hook runs is the one that its entry counts.
current-tenant :
    (p : ℕ) (client_id : Str) (h : Hook) (c : Conn) (o : Option ClientState)
    → ((st : ClientState) → o ≡ some st → Owns st c)
    → c.client ≡ p
    → is_current p client_id o h ≡ true
    → c.tenant_id ≡ tenant_of o
unfolding is_current
current-tenant p client_id h c none own e cur = cc
current-tenant p client_id h c (some st) own e cur = ground (arith, own st refl)

less-le : (b : Bool) (n k : ℕ) → one_if b + n ≤ k → n ≤ (if b then k - 1 else k)
less-le true n k h = omega arith
less-le false n k h = omega arith

-- One connection and its count go together.
count_down-counted :
    (c : Conn) (t u : Str) (n : ℕ) (m : Dict ℕ)
    → c.tenant_id ≡ u
    → one_if (str_eq c.tenant_id t) + n ≤ count_at t m
    → n ≤ count_at t (count_down u m)
count_down-counted c t u n m e h =
    let h' = subst (λ x. one_if (str_eq x t) + n ≤ count_at t m) e h in
    rw (count_at-count_down u t m) (less-le (str_eq u t) n (count_at t m) h')

count_down-le : (t u : Str) (m : Dict ℕ) → count_at t (count_down u m) ≤ count_at t m
count_down-le t u m = ground (arith, count_at-count_down u t m)

module _ (limit : Str → ℕ) (w : World) (i : IsCounted limit w) where
  registered-IsCounted :
      (a : Attempt) (info : DeviceInfo) (method : AuthMethod)
      → w.next ≤ a.client
      → is_full (some (limit info.tenant_id)) (count_at info.tenant_id w.hook.tenant_conns) ≡ false
      → IsCounted limit (record {
        hook = registered a info method w.hook;
        live = conn_of a info ∷ w.live;
        next = suc a.client;
      })
  unfolding registered live_count
  registered-IsCounted a info method le free =
      let u = info.tenant_id in
      let n = count_at u w.hook.tenant_conns in
      record {
        counted = λ t.
            ground
              (arith, i.counted t, count_at-insert u t (n + 1) w.hook.tenant_conns, str_eq_iff u t);
        limited = λ t l.
            ground
              (arith, i.limited t, count_at-insert u t (n + 1) w.hook.tenant_conns, str_eq_iff u t);
        below = (
          omega arith,
          All-mono (λ (c : Conn). c.client < w.next) (λ (c : Conn). c.client < suc a.client)
              (λ c b. omega arith) w.live i.below,
        );
        entries = λ k st e. elim (lookup-registered k a info method w.hook st e) [
          | inl (p, q) ↦ (
            omega arith,
            (
              λ _. ap (λ (d : DeviceInfo). d.tenant_id) (sym q),
              All-mono (λ (c : Conn). c.client < w.next) (Owns st) (λ c b f. absurd (omega arith))
                  w.live i.below,
            ),
          )
          | inr old ↦
              let (b, own) = i.entries k st old in (omega arith, (λ f. absurd (omega arith), own))
        ];
      }

  admits-IsCounted :
      (a : Attempt) (info : DeviceInfo) (method : AuthMethod) (h : Hook)
      → w.next ≤ a.client
      → register a info method (some (limit info.tenant_id)) w.hook ≡ some h
      → IsCounted limit (record { hook = h; live = conn_of a info ∷ w.live; next = suc a.client })
  admits-IsCounted a info method h le e =
      let (free, q) = register-some a info method (some (limit info.tenant_id)) w.hook h e in
      let live = conn_of a info ∷ w.live in
      subst (λ x. IsCounted limit (record { hook = x; live = live; next = suc a.client })) q
        (registered-IsCounted a info method le free)

  refuses-IsCounted :
      (p : ℕ) (c : Conn) (rest : List Conn)
      → Picks p w.live c rest
      → IsCounted limit (record w { hook = roll_back c.client_id c.tenant_id w.hook; live = rest })
  unfolding roll_back
  refuses-IsCounted p c rest k =
      weaken limit w (roll_back c.client_id c.tenant_id w.hook) p c rest k i
        (λ key st e. lookup-forgotten key c.client_id w.hook.clients st e)
        (λ t.
          count_down-counted c t c.tenant_id (live_count t rest) w.hook.tenant_conns refl
            (omega (arith, i.counted t, Picks-count p w.live c rest k t)))
        (λ t. count_down-le t c.tenant_id w.hook.tenant_conns)

  disconnects-IsCounted :
      (p : ℕ) (c : Conn) (rest : List Conn) (r expire evicted : Bool)
      → Picks p w.live c rest
      → IsCounted limit (record w {
        hook = (on_disconnect r p c.client_id expire evicted w.hook).hook;
        live = rest;
      })
  disconnects-IsCounted p c rest r expire evicted k =
      let h = (on_disconnect r p c.client_id expire evicted w.hook).hook in
      let state = lookup c.client_id w.hook.clients in
      let q = disconnect-conns r expire evicted p c.client_id w.hook in
      let u = tenant_of state in
      let own = λ (st : ClientState) (e : state ≡ some st).
        (Picks-All (Owns st) p w.live c rest k (i.entries c.client_id st e).1).0 in
      weaken limit w h p c rest k i
        (λ key st e. disconnect-clients r expire evicted p c.client_id key w.hook st e)
        (λ t. rw q (
          if_cases (λ m. live_count t rest ≤ count_at t m) (is_current p c.client_id state w.hook)
            (count_down u w.hook.tenant_conns) w.hook.tenant_conns
            (λ cur.
              count_down-counted c t u (live_count t rest) w.hook.tenant_conns
                (current-tenant p c.client_id w.hook c state own (Picks-client p w.live c rest k)
                  cur)
                (omega (arith, i.counted t, Picks-count p w.live c rest k t)))
            (λ _. omega (arith, i.counted t, Picks-count p w.live c rest k t))))
        (λ t. rw q (
          if_cases (λ m. count_at t m ≤ count_at t w.hook.tenant_conns)
            (is_current p c.client_id state w.hook) (count_down u w.hook.tenant_conns)
            w.hook.tenant_conns (λ _. count_down-le t u w.hook.tenant_conns) (λ _. omega arith)))

  expires-IsCounted :
      (p : ℕ) (client_id : Str)
      → IsCounted limit (record w { hook = (on_client_expired p client_id w.hook).hook })
  expires-IsCounted p client_id =
      let q = expire-conns p client_id w.hook in
      record {
        counted = λ t. rw q (i.counted t);
        limited = λ t l. rw q (i.limited t l);
        below = i.below;
        entries = λ k st e. i.entries k st (expire-clients p client_id k w.hook st e);
      }

Step-IsCounted :
    (limit : Str → ℕ) (v w : World) → IsCounted limit v → Step limit v w → IsCounted limit w
Step-IsCounted limit _ _ i (admits v a info method h le e) =
    admits-IsCounted limit v i a info method h le e
Step-IsCounted limit _ _ i (refuses v p c rest k) = refuses-IsCounted limit v i p c rest k
Step-IsCounted limit _ _ i (disconnects v p c rest r expire evicted k) =
    disconnects-IsCounted limit v i p c rest r expire evicted k
Step-IsCounted limit _ _ i (expires v p client_id) = expires-IsCounted limit v i p client_id

pub Reach-IsCounted : (limit : Str → ℕ) (w : World) → Reach limit w → IsCounted limit w
Reach-IsCounted limit _ starts = start-IsCounted limit
Reach-IsCounted limit w (steps v _ r s) = Step-IsCounted limit v w (Reach-IsCounted limit v r) s

-- Through any interleaving of connections that are admitted under a fixed limit, refused by a
-- failed claim, ended, and expired, from no connection on, a tenant with a limit never has more
-- open connections than the limit.
pub Reach-live_count :
    (limit : Str → ℕ) (w : World) (t : Str)
    → Reach limit w
    → 0 < limit t
    → live_count t w.live ≤ limit t
Reach-live_count limit w t r l =
    let i = Reach-IsCounted limit w r in omega (arith, i.counted t, i.limited t l)
