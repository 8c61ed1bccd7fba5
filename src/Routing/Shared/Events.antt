-- ===== src/Routing/Shared/Events.antt =====
-- router.go: the owners of shared filters through the scan of the store and the events that follow.
use keel_mqtt_gateway.Prelude.{
  ◌≡◌, refl, sym, ◌∙◌, Bool, true, false, Option, none, some, List, [], ◌∷◌, Str, str_eq,
  str_eq_refl, lookup, All, if◌then◌else◌, arith, subst,
}
use keel_mqtt_gateway.Routing.Keys.{key_sep, route_key, Base64, parse_route_key}
use keel_mqtt_gateway.Routing.Keys.Roundtrip.{IsFree, cut_last_join, cut_last-IsFree}
use keel_mqtt_gateway.Routing.Table.{
  member, topics_of, topics_for_node, add_local, remove_local, remove_all, apply_event, RouteEvent,
  event_subscribe, event_unsubscribe, event_unsubscribe_batch, event_purge_node,
}
use keel_mqtt_gateway.Routing.Table.Members.{has}
use keel_mqtt_gateway.Routing.Shared.{
  TopicsIndex, Router, no_routes, add_local_locked, remove_local_locked, remove_topics_locked,
  apply_to_router, scan_key, rebuild_router,
}
use keel_mqtt_gateway.Routing.Shared.Mirrors.{IsCanonical}
use keel_mqtt_gateway.Routing.Shared.Changes.{
  IsMirror, add_local_locked-IsMirror, scan_key-IsMirror, remove_local_locked-IsMirror,
  remove_topics_locked-IsMirror,
}

module _ (index : TopicsIndex) (base64 : Base64) where
  members-All :
      (P : Str → Type 0) (ts : List Str) → ((t : Str) → member t ts ≡ true → P t) → All P ts
  members-All P [] h = tt
  members-All P (t ∷ ts) h =
      (h t (ground (arith, str_eq_refl t)), members-All P ts (λ t' e. h t' (ground (arith, e))))

  purged-All :
      (n : Str) (r : Router index)
      → IsMirror index base64 r
      → All (IsCanonical base64) (topics_for_node n r.by_node)
  unfolding topics_for_node has
  purged-All n r k =
      members-All (IsCanonical base64) (topics_of (lookup n r.by_node)) (λ t. k.2 t n)

  either : {A : Type 0} (P : A → Type 0) (b : Bool) {x y : A} → P x → P y → P (if b then x else y)
  either P true p q = p
  either P false p q = q

  by_node-remove_topics_locked :
      (topics : List Str) (n : Str) (r : Router index)
      → (remove_topics_locked index base64 topics n r).by_node ≡ remove_all topics n r.by_node
  unfolding remove_topics_locked remove_local_locked remove_all
  by_node-remove_topics_locked [] n r = refl
  by_node-remove_topics_locked (t ∷ topics) n r =
      by_node-remove_topics_locked topics n (remove_local_locked index base64 t n r)

  -- The table beside the owners goes through an event as it does alone.
  pub by_node-apply_to_router :
      (ev : RouteEvent) (r : Router index)
      → (apply_to_router index base64 ev r).by_node ≡ apply_event ev r.by_node
  unfolding apply_to_router apply_event add_local_locked remove_local_locked
  by_node-apply_to_router ev r =
      branches (str_eq ev.op event_subscribe) (str_eq ev.op event_unsubscribe)
        (str_eq ev.op event_unsubscribe_batch) (str_eq ev.op event_purge_node)
    where
      branches :
          (a b c d : Bool)
          → (if a
              then add_local_locked index base64 ev.topic ev.node_id r
              else if b
              then remove_local_locked index base64 ev.topic ev.node_id r
              else if c
              then remove_topics_locked index base64 ev.topics ev.node_id r
              else if d
              then remove_topics_locked index base64
                  (topics_for_node ev.node_id r.by_node)
                  ev.node_id
                  r
              else r).by_node
            ≡ (if a
                then add_local ev.topic ev.node_id r.by_node
                else if b
                then remove_local ev.topic ev.node_id r.by_node
                else if c
                then remove_all ev.topics ev.node_id r.by_node
                else if d
                then remove_all (topics_for_node ev.node_id r.by_node) ev.node_id r.by_node
                else r.by_node)
      branches true b c d = refl
      branches false true c d = refl
      branches false false true d = by_node-remove_topics_locked ev.topics ev.node_id r
      branches false false false true =
          by_node-remove_topics_locked (topics_for_node ev.node_id r.by_node) ev.node_id r
      branches false false false false = refl

  -- What an event must be for this: a node without a NUL, and only topics of that kind.
  abbrev pub IsSound : RouteEvent → Type 0
  IsSound ev =
      IsFree key_sep ev.node_id × IsCanonical base64 ev.topic × All (IsCanonical base64) ev.topics

  apply_to_router-IsMirror :
      (ev : RouteEvent) (r : Router index)
      → IsSound ev
      → IsMirror index base64 r
      → IsMirror index base64 (apply_to_router index base64 ev r)
  unfolding apply_to_router
  apply_to_router-IsMirror ev r (h, canon, all) k =
      either (IsMirror index base64) (str_eq ev.op event_subscribe)
        (add_local_locked-IsMirror index base64 ev.topic ev.node_id r h canon k)
        (either (IsMirror index base64) (str_eq ev.op event_unsubscribe)
          (remove_local_locked-IsMirror index base64 ev.topic ev.node_id r h canon k)
          (either (IsMirror index base64) (str_eq ev.op event_unsubscribe_batch)
            (remove_topics_locked-IsMirror index base64 ev.topics ev.node_id r h all k)
            (either (IsMirror index base64) (str_eq ev.op event_purge_node)
              (remove_topics_locked-IsMirror index base64 (topics_for_node ev.node_id r.by_node)
                ev.node_id r h (purged-All ev.node_id r k) k)
              k)))

  -- What a key of the store must be.
  abbrev pub IsSoundKey : Str → Type 0
  IsSoundKey key = (t n : Str) → parse_route_key key ≡ some (t, n) → IsCanonical base64 t

  pub route_key-IsSoundKey :
      (t n : Str) → IsFree key_sep n → IsCanonical base64 t → IsSoundKey (route_key t n)
  unfolding parse_route_key
  route_key-IsSoundKey t n h canon t' n' e =
      let p = sym (cut_last_join key_sep t n h) ∙ e in
      subst (IsCanonical base64) (ground (arith, p)) canon

  rebuild_router-IsMirror :
      (keys : List Str) (r : Router index)
      → All IsSoundKey keys
      → IsMirror index base64 r
      → IsMirror index base64 (rebuild_router index base64 keys r)
  unfolding rebuild_router parse_route_key
  rebuild_router-IsMirror [] r a k = k
  rebuild_router-IsMirror (key ∷ keys) r a k =
      rebuild_router-IsMirror keys _ a.1 (scanned (parse_route_key key) refl)
    where
      scanned :
          (o : Option (Str × Str))
          → parse_route_key key ≡ o
          → IsMirror index base64 (scan_key index base64 o r)
      scanned none e = k
      scanned (some (t, n)) e =
          scan_key-IsMirror index base64 t n r (cut_last-IsFree key_sep key t n e) (a.0 t n e) k

  pub follow_events : List RouteEvent → Router index → Router index
  unfolding apply_to_router
  follow_events [] r = r
  follow_events (ev ∷ evs) r = follow_events evs (apply_to_router index base64 ev r)

  follow_events-IsMirror :
      (evs : List RouteEvent) (r : Router index)
      → All IsSound evs
      → IsMirror index base64 r
      → IsMirror index base64 (follow_events evs r)
  unfolding follow_events
  follow_events-IsMirror [] r a k = k
  follow_events-IsMirror (ev ∷ evs) r a k =
      follow_events-IsMirror evs _ a.1 (apply_to_router-IsMirror ev r a.0 k)

  no_routes-IsMirror : IsMirror index base64 (no_routes index)
  unfolding has lookup
  no_routes-IsMirror = (
    (λ o f u e. index.holds-new o u),
    (λ n c f u free client under. refl),
    λ t n e. absurd (ground (arith, e)),
  )

  -- After a rebuild from the keys of a store and then any events, the set of a shared filter's
  -- offline owners has the owner key of a node and a client exactly where the table has the
  -- ownership key of the client and the filter for the node, the index of each shared filter holds
  -- exactly the owners in its set, and the table has no ownership key but those that OwnershipKey
  -- makes; so are those in the store and in the events, and the IDs of the nodes and the clients
  -- hold no NUL.
  pub shared_owners_lem :
      (keys : List Str) (evs : List RouteEvent)
      → All IsSoundKey keys
      → All IsSound evs
      → IsMirror index base64
          (follow_events evs (rebuild_router index base64 keys (no_routes index)))
  shared_owners_lem keys evs a b =
      follow_events-IsMirror evs _ b (rebuild_router-IsMirror keys _ a no_routes-IsMirror)
