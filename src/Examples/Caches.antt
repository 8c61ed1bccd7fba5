-- ===== src/Examples/Caches.antt =====
-- The owner of the offline session of a client.
use keel_mqtt_gateway.Prelude.{
  ◌≡◌, refl, Bool, true, false, ◌&&◌, ◌||◌, some, List, [], ◌∷◌, Str, codes, str_eq, str_eq_iff,
  keep, map, has_some, All, arith,
}
use keel_mqtt_gateway.Routing.Table.{member, Table}
use keel_mqtt_gateway.Routing.Table.Members.{has, has-listed}
use keel_mqtt_gateway.Routing.Keys.{Base64, ownership_key}
use keel_mqtt_gateway.Session.Offline.{OfflineSession}
use keel_mqtt_gateway.Session.Reconciler.{is_owner, Calls, reconcile_once}
use keel_mqtt_gateway.Session.Reconciler.Placed.{SessionIsPlaced, no_owner_lost, reconcile_once_lem}
use keel_mqtt_gateway.Session.Ownership.{
  offline_route_key, Index, current_owner, place, Routes, refused, unpublished, done,
}
use keel_mqtt_gateway.Session.Ownership.Handoff.{said, place_lem, half_placed}

abbrev plain_text : Base64
plain_text = record { encode = λ s. s; decode = some; decode-encode = λ s. refl }

member-keep :
    (p : Str → Bool) (node : Str) (xs : List Str)
    → member node (keep p xs) ≡ (member node xs && p node)
member-keep p node [] = refl
member-keep p node (x ∷ xs) = ground (arith, member-keep p node xs, str_eq_iff x node)

-- The nodes of a table that have a topic.
abbrev scan : Str → Table → List Str
scan key m = keep (λ node. has key node m) (map (λ e. e.0) m)

scan-has : (key node : Str) (m : Table) → member node (scan key m) ≡ has key node m
scan-has key node m =
    ground (arith, member-keep (λ x. has key x m) node (map (λ e. e.0) m), has-listed key node m)

abbrev scanned : Index plain_text
scanned = record { nodes_for = scan; nodes_for-has = λ c f node m. scan-has _ node m }

abbrev c1 : Str
c1 = codes "c1"

abbrev filter_a : Str
filter_a = codes "a"

-- n1 owns the session, in the table.
abbrev owned_by_n1 : Table
owned_by_n1 = (codes "n1", ownership_key plain_text c1 filter_a ∷ []) ∷ []

abbrev routes_of_n1 : Routes
routes_of_n1 = record { live = owned_by_n1; kept = owned_by_n1 }

abbrev no_routes_yet : Routes
no_routes_yet = record { live = []; kept = [] }

handed_over :
    current_owner scanned c1 filter_a
      (place scanned done done done c1 filter_a (codes "n2") routes_of_n1).0.live
    ≡ some (codes "n2")
unfolding current_owner place ownership_key has
handed_over = refl

-- The event of the removal is not published.
place_lem_example :
    let old = current_owner scanned c1 filter_a owned_by_n1 in
    let s' = (place scanned done done unpublished c1 filter_a (codes "n2") routes_of_n1).0 in
    ((place scanned done done unpublished c1 filter_a (codes "n2") routes_of_n1).1 ≡ true)
    × (has_some (current_owner scanned c1 filter_a s'.live) ≡ true)
    × ((t n : Str)
        → has t n s'.live
          ≡ said scanned true true false c1 filter_a (codes "n2") old owned_by_n1 t n)
    × ((t n : Str)
        → has t n s'.kept
          ≡ said scanned true true true c1 filter_a (codes "n2") old owned_by_n1 t n)
place_lem_example = place_lem scanned done done unpublished c1 filter_a (codes "n2") routes_of_n1

half_placed_example :
    let s' = (place scanned done unpublished done c1 filter_a (codes "n2") no_routes_yet).0 in
    ((place scanned done unpublished done c1 filter_a (codes "n2") no_routes_yet).1 ≡ false)
    × (is_owner (current_owner scanned c1 filter_a s'.live) (codes "n2") ≡ true)
    × ((n : Str)
        → has (offline_route_key filter_a) n s'.live ≡ has (offline_route_key filter_a) n [])
    × ((n : Str)
        → has (offline_route_key filter_a) n s'.kept
          ≡ ((true && str_eq (codes "n2") n) || has (offline_route_key filter_a) n []))
unfolding current_owner
half_placed_example =
    half_placed scanned unpublished done c1 filter_a (codes "n2") no_routes_yet refl refl

abbrev waiting_session : OfflineSession
waiting_session = record {
  client_id = c1;
  subscriptions = record { filter = filter_a; qos = 1 } ∷ [];
}

abbrev two_edges : List Str
two_edges = codes "n2" ∷ codes "n3" ∷ []

-- The last call always fails.
abbrev no_removal : Str → Str → Calls
no_removal c f = record { owned = done; routed = done; removed = refused }

owned_at_first : has_some (current_owner scanned c1 filter_a owned_by_n1) ≡ true
unfolding current_owner ownership_key has str_eq
owned_at_first = refl

no_owner_lost_example :
    has_some (
      current_owner scanned c1 filter_a
        (reconcile_once scanned no_removal two_edges
          (some (waiting_session ∷ []))
          routes_of_n1).0.live)
    ≡ true
no_owner_lost_example =
    no_owner_lost scanned no_removal two_edges (some (waiting_session ∷ [])) routes_of_n1 c1
      filter_a owned_at_first

reconcile_once_lem_example :
    All
      (SessionIsPlaced scanned no_removal two_edges
        (λ c f. refl)
        (reconcile_once scanned no_removal two_edges (some (waiting_session ∷ [])) routes_of_n1))
      (waiting_session ∷ [])
reconcile_once_lem_example =
    reconcile_once_lem scanned no_removal two_edges (λ c f. refl) (waiting_session ∷ [])
      routes_of_n1 refl (((refl, λ e. ground arith), tt), tt)
