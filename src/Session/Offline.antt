-- ===== src/Session/Offline.antt =====
-- internal/session/offline_session.go: the sessions with no live connection.
use mathlib.Core.List.{append-nil, append_assoc}
use keel_mqtt_gateway.Prelude.{
  ℕ, ◌≡◌, refl, ◌∙◌, sym, not, Option, none, some, List, [], ◌∷◌, ◌++◌, map, Str, Dict, str_eq,
  str_eq_iff, lookup, insert, lookup-insert, has_some, keep, if◌then◌else◌, arith,
}

pub record OfflineSubscription : Type 0 where
  pub filter : Str
  pub qos : ℕ

pub record OfflineSession : Type 0 where
  pub client_id : Str
  pub subscriptions : List OfflineSubscription

-- What the source reads of the rows of mochi-mqtt's storage.Subscription; of storage.Client it
-- reads the ID alone.
pub record StoredSubscription : Type 0 where
  pub client : Str
  pub filter : Str
  pub qos : ℕ

abbrev of_row : StoredSubscription → OfflineSubscription
of_row sub = record { filter = sub.filter; qos = sub.qos }

unfoldable pub rows_for : Str → List StoredSubscription → List OfflineSubscription
unfolding str_eq
rows_for client_id [] = []
rows_for client_id (sub ∷ subs) =
    let rest = rows_for client_id subs in
    if not (str_eq sub.client client_id) then rest else of_row sub ∷ rest

-- FromStorage.
unfoldable pub from_storage : Str → List StoredSubscription → OfflineSession
unfolding rows_for
from_storage client_id subs = record {
  client_id = client_id;
  subscriptions = rows_for client_id subs;
}

-- A missing key reads as the nil slice.
abbrev grouped : Option (List StoredSubscription) → List StoredSubscription
grouped none = []
grouped (some rows) = rows

-- The loop that fills byClient.
by_client :
    List StoredSubscription → Dict (List StoredSubscription) → Dict (List StoredSubscription)
unfolding lookup insert str_eq
by_client [] m = m
by_client (sub ∷ subs) m =
    by_client subs (insert sub.client (grouped (lookup sub.client m) ++ sub ∷ []) m)

-- AllFromStorage, over the IDs of the stored clients.
unfoldable pub all_from_storage : List Str → List StoredSubscription → List OfflineSession
unfolding from_storage by_client
all_from_storage clients subs =
    let m = by_client subs [] in map (λ id. from_storage id (grouped (lookup id m))) clients

-- FilterOffline: the sessions whose client no node claims.
unfoldable pub filter_offline : List OfflineSession → Dict Str → List OfflineSession
unfolding lookup str_eq
filter_offline sessions live_claimed =
    keep (λ s. not (has_some (lookup s.client_id live_claimed))) sessions

rows_for-append :
    (id : Str) (xs ys : List StoredSubscription)
    → rows_for id (xs ++ ys) ≡ rows_for id xs ++ rows_for id ys
unfolding rows_for
rows_for-append id [] ys = refl
rows_for-append id (x ∷ xs) ys = ground (arith, rows_for-append id xs ys)

-- What a group holds for its own client.
rows_for-by_client :
    (id : Str) (subs : List StoredSubscription) (m : Dict (List StoredSubscription))
    → rows_for id (grouped (lookup id (by_client subs m)))
      ≡ rows_for id (grouped (lookup id m)) ++ rows_for id subs
unfolding by_client rows_for
rows_for-by_client id [] m = sym (append-nil _)
rows_for-by_client id (sub ∷ subs) m =
    let row = sub ∷ [] in
    let old = grouped (lookup sub.client m) in
    let m' = insert sub.client (old ++ row) m in rows_for-by_client id subs m' ∙ step
  where
    step :
        rows_for id
            (grouped (lookup id (insert sub.client (grouped (lookup sub.client m) ++ sub ∷ []) m)))
          ++ rows_for id subs
        ≡ rows_for id (grouped (lookup id m)) ++ rows_for id (sub ∷ subs)
    step = ground (
      arith,
      lookup-insert sub.client id (grouped (lookup sub.client m) ++ sub ∷ []) m,
      str_eq_iff sub.client id,
      rows_for-append id (grouped (lookup sub.client m)) (sub ∷ []),
      append_assoc (rows_for id (grouped (lookup sub.client m))) (of_row sub ∷ [])
          (rows_for id subs),
    )

-- Grouping the rows first gives each client the session that a scan of all rows would give it.
pub all_from_storage_lem :
    (clients : List Str) (subs : List StoredSubscription)
    → all_from_storage clients subs ≡ map (λ id. from_storage id subs) clients
unfolding all_from_storage from_storage
all_from_storage_lem [] subs = refl
all_from_storage_lem (id ∷ clients) subs =
    ground (arith, all_from_storage_lem clients subs, rows_for-by_client id subs [])
