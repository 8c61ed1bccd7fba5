-- ===== src/Session/Reconciler/Placed.antt =====
-- reconciler.go over offline_ownership.go: what a pass leaves, however far its calls come.
use mathlib.Core.Option.{some-injective}
use keel_mqtt_gateway.Prelude.{
  ℕ, ◌+◌, ◌≡◌, ◌≢◌, refl, sym, ◌∙◌, ap, subst, inl, inr, true, false, not, Option, none, some, List,
  [], ◌∷◌, Str, str_eq, str_eq_iff, str_eq_refl, has_some, is_nil, All, if_cases, if◌then◌else◌,
  Bool-cases, Option-cases, arith,
}
use keel_mqtt_gateway.Routing.Keys.{Base64, ownership_key, ownership_key_parts}
use keel_mqtt_gateway.Routing.Keys.Roundtrip.{IsFree, ownership_key_roundtrip}
use keel_mqtt_gateway.Routing.Table.{Table}
use keel_mqtt_gateway.Routing.Table.Members.{has}
use keel_mqtt_gateway.Session.Offline.{OfflineSubscription, OfflineSession}
use keel_mqtt_gateway.Session.Placement.{owner}
use keel_mqtt_gateway.Session.Ownership.{Index, Reply, is_done, Routes, current_owner, place}
use keel_mqtt_gateway.Session.Ownership.Handoff.{owner_known, owner-has, has-live}
use keel_mqtt_gateway.Session.Reconciler.{
  Calls, is_owner, visit, sub_loop, place_session, session_loop, reconcile_once,
}

module _ {base64 : Base64} (index : Index base64) where
  place-keeps :
      (r1 r2 r3 : Reply) (c f o : Str) (s : Routes) (c' f' n : Str)
      → has (ownership_key base64 c' f') n s.live ≡ true
      → has_some (current_owner index c' f' (place index r1 r2 r3 c f o s).0.live) ≡ true
  place-keeps r1 r2 r3 c f o s c' f' n h =
      let m' = (place index r1 r2 r3 c f o s).0.live in
      let key' = ownership_key base64 c' f' in
      elim (Bool-cases (has key' n m')) [
        | inl e ↦ owner_known index c' f' n m' e
        | inr e ↦ owner_known index c' f' o m' (
            has-live index r1 r2 r3 c f o s key' o
            ∙ ground (arith, str_eq_refl o, h, sym (has-live index r1 r2 r3 c f o s key' n) ∙ e))
      ]

  owner-somewhere :
      (c f : Str) (m : Table)
      → has_some (current_owner index c f m) ≡ true
      → (n : Str) × (has (ownership_key base64 c f) n m ≡ true)
  owner-somewhere c f m h = elim (Option-cases (current_owner index c f m)) [
    | inl e ↦ absurd (ground (arith, h, e))
    | inr (n, e) ↦ (n, owner-has index c f n m (rw e (str_eq_refl n)))
  ]

  module _ (calls : Str → Str → Calls) where
    abbrev IsOwned : Str → Str → Routes × ℕ → Type 0
    IsOwned c f w = has_some (current_owner index c f w.0.live) ≡ true

    visit-keeps :
        (c o : Str) (sub : OfflineSubscription) (w : Routes × ℕ) (c' f' : Str)
        → IsOwned c' f' w
        → IsOwned c' f' (visit index calls c o sub w)
    unfolding visit
    visit-keeps c o sub (s, moved) c' f' h =
        let called = calls c sub.filter in
        let (n, k) = owner-somewhere c' f' s.live h in
        let kept =
          place-keeps called.owned called.routed called.removed c sub.filter o s c' f' n k in
        let (s', placed) = place index called.owned called.routed called.removed c sub.filter o s in
        if_cases (IsOwned c' f') (is_owner (current_owner index c sub.filter s.live) o) (s, moved)
          (if not placed then (s', moved) else (s', moved + 1)) (λ _. h)
          (λ _.
            if_cases (IsOwned c' f') (not placed) (s', moved) (s', moved + 1) (λ _. kept)
              (λ _. kept))

    sub_loop-keeps :
        (c o : Str) (subs : List OfflineSubscription) (w : Routes × ℕ) (c' f' : Str)
        → IsOwned c' f' w
        → IsOwned c' f' (sub_loop index calls c o subs w)
    unfolding sub_loop
    sub_loop-keeps c o [] w c' f' h = h
    sub_loop-keeps c o (sub ∷ subs) w c' f' h =
        sub_loop-keeps c o subs (visit index calls c o sub w) c' f' (visit-keeps c o sub w c' f' h)

    place_session-keeps :
        (o : Option Str) (x : OfflineSession) (w : Routes × ℕ) (c' f' : Str)
        → IsOwned c' f' w
        → IsOwned c' f' (place_session index calls o x w)
    place_session-keeps none x w c' f' h = h
    place_session-keeps (some o) x w c' f' h =
        sub_loop-keeps x.client_id o x.subscriptions w c' f' h

    session_loop-keeps :
        (edges : List Str) (sessions : List OfflineSession) (w : Routes × ℕ) (c' f' : Str)
        → IsOwned c' f' w
        → IsOwned c' f' (session_loop index calls edges sessions w)
    unfolding session_loop
    session_loop-keeps edges [] w c' f' h = h
    session_loop-keeps edges (x ∷ sessions) w c' f' h =
        session_loop-keeps edges sessions (place_session index calls (owner x.client_id edges) x w)
          c' f' (place_session-keeps (owner x.client_id edges) x w c' f' h)

    -- However far the calls of its placements come, an error of the store or of the channel
    -- included, a pass of the session reconciler leaves no client and filter without an owner in
    -- the routing table that had one before it.
    pub no_owner_lost :
        (edges : List Str) (inventory : Option (List OfflineSession)) (s : Routes) (c f : Str)
        → has_some (current_owner index c f s.live) ≡ true
        → has_some (current_owner index c f (reconcile_once index calls edges inventory s).0.live)
          ≡ true
    unfolding reconcile_once
    no_owner_lost edges none s c f h =
        if_cases (IsOwned c f) (is_nil edges) (s, 0) (s, 0) (λ _. h) (λ _. h)
    no_owner_lost edges (some sessions) s c f h =
        if_cases (IsOwned c f) (is_nil edges) (s, 0)
          (session_loop index calls edges sessions (s, 0)) (λ _. h)
          (λ _. session_loop-keeps edges sessions (s, 0) c f h)

    module _ (edges : List Str) (takes : (c f : Str) → is_done (calls c f).owned ≡ true) where
      -- The node that Owner chooses is among the owners of the client's filter.
      abbrev pub IsPlaced : Str → Str → Routes × ℕ → Type 0
      IsPlaced c f w =
          (o : Str) → owner c edges ≡ some o → has (ownership_key base64 c f) o w.0.live ≡ true

      -- Clients and filters of an inventory: no NUL in an ID, no empty filter.
      abbrev pub IsSound : Str → OfflineSubscription → Type 0
      IsSound c sub = IsFree 0 c × (sub.filter ≢ [])

      same_client :
          (c f c' f' : Str)
          → IsFree 0 c
          → f ≢ []
          → IsFree 0 c'
          → f' ≢ []
          → str_eq (ownership_key base64 c f) (ownership_key base64 c' f') ≡ true
          → c ≡ c'
      same_client c f c' f' h n h' n' e = ap client_of (
          sym (ownership_key_roundtrip base64 c f h n)
          ∙ ap (ownership_key_parts base64)
              ((str_eq_iff (ownership_key base64 c f) (ownership_key base64 c' f')).0 e)
          ∙ ownership_key_roundtrip base64 c' f' h' n')
        where
          client_of : Option (Str × Str) → Str
          client_of none = []
          client_of (some (c, f)) = c

      -- What was read by the guard or placed.
      visit-places :
          (c o : Str) (sub : OfflineSubscription) (w : Routes × ℕ)
          → owner c edges ≡ some o
          → IsPlaced c sub.filter (visit index calls c o sub w)
      unfolding visit
      visit-places c o sub (s, moved) e o' e' =
          let called = calls c sub.filter in
          let (s', placed) =
            place index called.owned called.routed called.removed c sub.filter o s in
          let key = ownership_key base64 c sub.filter in
          let same : o ≡ o' = some-injective o o' (sym e ∙ e') in
          let there : has key o s'.live ≡ true =
            has-live index called.owned called.routed called.removed c sub.filter o s key o
            ∙ ground (arith, takes c sub.filter, str_eq_refl key, str_eq_refl o) in
          let P : Routes × ℕ → Type 0 = λ w. has key o' w.0.live ≡ true in
          if_cases P (is_owner (current_owner index c sub.filter s.live) o) (s, moved)
            (if not placed then (s', moved) else (s', moved + 1))
            (λ k.
              subst (λ x. has key x s.live ≡ true) same (owner-has index c sub.filter o s.live k))
            (λ _.
              if_cases P (not placed) (s', moved) (s', moved + 1)
                (λ _. subst (λ x. has key x s'.live ≡ true) same there)
                (λ _. subst (λ x. has key x s'.live ≡ true) same there))

      visit-spares :
          (c o : Str) (sub : OfflineSubscription) (w : Routes × ℕ) (c' f' : Str)
          → owner c edges ≡ some o
          → IsSound c sub
          → IsFree 0 c'
          → f' ≢ []
          → IsPlaced c' f' w
          → IsPlaced c' f' (visit index calls c o sub w)
      unfolding visit
      visit-spares c o sub (s, moved) c' f' e (free, n) free' n' h o' e' =
          let called = calls c sub.filter in
          let (s', placed) =
            place index called.owned called.routed called.removed c sub.filter o s in
          let key = ownership_key base64 c sub.filter in
          let key' = ownership_key base64 c' f' in
          let there : has key' o' s'.live ≡ true =
            has-live index called.owned called.routed called.removed c sub.filter o s key' o'
            ∙ ground (arith, h o' e', spared) in
          let P : Routes × ℕ → Type 0 = λ w. has key' o' w.0.live ≡ true in
          if_cases P (is_owner (current_owner index c sub.filter s.live) o) (s, moved)
            (if not placed then (s', moved) else (s', moved + 1)) (λ _. h o' e')
            (λ _. if_cases P (not placed) (s', moved) (s', moved + 1) (λ _. there) (λ _. there))
        where
          spared :
              str_eq (ownership_key base64 c sub.filter) (ownership_key base64 c' f') ≡ true
              → str_eq o' o ≡ true
          spared k =
              let same = same_client c sub.filter c' f' free n free' n' k in
              (str_eq_iff o' o).1
                (some-injective o' o (sym e' ∙ sym (ap (λ x. owner x edges) same) ∙ e))

      sub_loop-spares :
          (c o : Str) (subs : List OfflineSubscription) (w : Routes × ℕ) (c' f' : Str)
          → owner c edges ≡ some o
          → All (IsSound c) subs
          → IsFree 0 c'
          → f' ≢ []
          → IsPlaced c' f' w
          → IsPlaced c' f' (sub_loop index calls c o subs w)
      unfolding sub_loop
      sub_loop-spares c o [] w c' f' e a free n h = h
      sub_loop-spares c o (sub ∷ subs) w c' f' e a free n h =
          sub_loop-spares c o subs (visit index calls c o sub w) c' f' e a.1 free n
            (visit-spares c o sub w c' f' e a.0 free n h)

      sub_loop-places :
          (c o : Str) (subs : List OfflineSubscription) (w : Routes × ℕ)
          → owner c edges ≡ some o
          → All (IsSound c) subs
          → All (λ sub. IsPlaced c sub.filter (sub_loop index calls c o subs w)) subs
      unfolding sub_loop
      sub_loop-places c o [] w e a = tt
      sub_loop-places c o (sub ∷ subs) w e a =
          let w' = visit index calls c o sub w in
          (
            sub_loop-spares c o subs w' c sub.filter e a.1 a.0.0 a.0.1 (visit-places c o sub w e),
            sub_loop-places c o subs w' e a.1,
          )

      abbrev pub SessionIsSound : OfflineSession → Type 0
      SessionIsSound x = All (IsSound x.client_id) x.subscriptions

      abbrev pub SessionIsPlaced : Routes × ℕ → OfflineSession → Type 0
      SessionIsPlaced w x = All (λ sub. IsPlaced x.client_id sub.filter w) x.subscriptions

      place_session-spares :
          (o : Option Str) (x : OfflineSession) (w : Routes × ℕ) (c' f' : Str)
          → owner x.client_id edges ≡ o
          → SessionIsSound x
          → IsFree 0 c'
          → f' ≢ []
          → IsPlaced c' f' w
          → IsPlaced c' f' (place_session index calls o x w)
      place_session-spares none x w c' f' e a free n h = h
      place_session-spares (some o) x w c' f' e a free n h =
          sub_loop-spares x.client_id o x.subscriptions w c' f' e a free n h

      unowned-IsPlaced :
          (c : Str) (subs : List OfflineSubscription) (w : Routes × ℕ)
          → owner c edges ≡ none
          → All (λ sub. IsPlaced c sub.filter w) subs
      unowned-IsPlaced c [] w e = tt
      unowned-IsPlaced c (sub ∷ subs) w e =
          ((λ o e'. absurd (ground (arith, e, e'))), unowned-IsPlaced c subs w e)

      place_session-places :
          (o : Option Str) (x : OfflineSession) (w : Routes × ℕ)
          → owner x.client_id edges ≡ o
          → SessionIsSound x
          → SessionIsPlaced (place_session index calls o x w) x
      place_session-places none x w e a = unowned-IsPlaced x.client_id x.subscriptions w e
      place_session-places (some o) x w e a = sub_loop-places x.client_id o x.subscriptions w e a

      session_loop-spares :
          (sessions : List OfflineSession) (w : Routes × ℕ) (c' f' : Str)
          → All SessionIsSound sessions
          → IsFree 0 c'
          → f' ≢ []
          → IsPlaced c' f' w
          → IsPlaced c' f' (session_loop index calls edges sessions w)
      unfolding session_loop
      session_loop-spares [] w c' f' a free n h = h
      session_loop-spares (x ∷ sessions) w c' f' a free n h =
          session_loop-spares sessions (place_session index calls (owner x.client_id edges) x w) c'
            f' a.1 free n
            (place_session-spares (owner x.client_id edges) x w c' f' refl a.0 free n h)

      still-IsPlaced :
          (c : Str) (subs : List OfflineSubscription) (sessions : List OfflineSession)
          (w : Routes × ℕ)
          → All SessionIsSound sessions
          → All (IsSound c) subs
          → All (λ sub. IsPlaced c sub.filter w) subs
          → All (λ sub. IsPlaced c sub.filter (session_loop index calls edges sessions w)) subs
      still-IsPlaced c [] sessions w a b h = tt
      still-IsPlaced c (sub ∷ subs) sessions w a b h = (
        session_loop-spares sessions w c sub.filter a b.0.0 b.0.1 h.0,
        still-IsPlaced c subs sessions w a b.1 h.1,
      )

      session_loop-places :
          (sessions : List OfflineSession) (w : Routes × ℕ)
          → All SessionIsSound sessions
          → All (SessionIsPlaced (session_loop index calls edges sessions w)) sessions
      unfolding session_loop
      session_loop-places [] w a = tt
      session_loop-places (x ∷ sessions) w a =
          let w' = place_session index calls (owner x.client_id edges) x w in
          (
            still-IsPlaced x.client_id x.subscriptions sessions w' a.1 a.0
                (place_session-places (owner x.client_id edges) x w refl a.0),
            session_loop-places sessions w' a.1,
          )

      -- Where some edge node is live, the first call of each placement is stored and published,
      -- however far the other two come, no client ID of the inventory holds a NUL and no filter of
      -- it is empty, a pass leaves the node that Owner chooses for a client among the owners of
      -- each of the client's filters.
      pub reconcile_once_lem :
          (sessions : List OfflineSession) (s : Routes)
          → is_nil edges ≡ false
          → All SessionIsSound sessions
          → All (SessionIsPlaced (reconcile_once index calls edges (some sessions) s)) sessions
      unfolding reconcile_once
      reconcile_once_lem sessions s e a = rw e (session_loop-places sessions (s, 0) a)
