-- ===== src/Broker/Dispatch/Pages.antt =====
-- redis_session.go, OwnedOfflineSessions: the pages together are one read of all the clients.
use keel_mqtt_gateway.Prelude.{
  ℕ, zero, suc, ◌+◌, ◌≤◌, ◌≡◌, refl, ap, Bool, false, some, List, [], ◌∷◌, ◌++◌, map, Str, length,
  take, arith,
}
use keel_mqtt_gateway.Session.Offline.{StoredSubscription, OfflineSession, from_storage}
use keel_mqtt_gateway.Broker.Dispatch.{scan_count, skip, pages, owned_offline_sessions}

length-skip-le {ℓ} : {A : Type ℓ} (n : ℕ) (xs : List A) → length (skip n xs) ≤ length xs
length-skip-le zero xs = omega arith
length-skip-le (suc n) [] = omega arith
length-skip-le (suc n) (x ∷ xs) = omega (arith, length-skip-le n xs)

map-take-skip {ℓ κ} :
    {A : Type ℓ} {B : Type κ} (f : A → B) (n : ℕ) (xs : List A)
    → map f (take n xs) ++ map f (skip n xs) ≡ map f xs
map-take-skip f zero xs = refl
map-take-skip f (suc n) [] = refl
map-take-skip f (suc n) (x ∷ xs) = ap (λ ys. f x ∷ ys) (map-take-skip f n xs)

abbrev pub session_of : (Str → List StoredSubscription) → Str → OfflineSession
session_of rows id = from_storage id (rows id)

module _ (fails : ℕ → Bool) (rows : Str → List StoredSubscription) where
  pages_lem :
      (fuel page : ℕ) (ids : List Str)
      → ((n : ℕ) → fails n ≡ false)
      → length ids ≤ fuel
      → pages fails rows fuel page ids ≡ some (map (session_of rows) ids)
  unfolding pages
  pages_lem zero page [] ok h = refl
  pages_lem zero page (id ∷ ids) ok h = absurd (omega (arith, h))
  pages_lem (suc fuel) page [] ok h = refl
  pages_lem (suc fuel) page (id ∷ ids) ok h =
      rw
        (
          ok page,
          pages_lem fuel (page + 1) (skip scan_count (id ∷ ids)) ok
              (omega (arith, h, length-skip-le 255 ids)),
        )
        (ap some (map-take-skip (session_of rows) scan_count (id ∷ ids)))

  -- Where no page fails, the sessions are those of the requested clients, each from its own rows.
  pub owned_offline_sessions_lem :
      (ids : List Str)
      → ((n : ℕ) → fails n ≡ false)
      → owned_offline_sessions fails rows ids ≡ some (map (session_of rows) ids)
  unfolding owned_offline_sessions
  owned_offline_sessions_lem ids ok = pages_lem (length ids) 0 ids ok (omega arith)
