-- ===== src/Raft/Revocation.antt =====
-- internal/cluster/raft/revocation_cache.go: the cache of revoked identities of an edge node. What
-- a fetch answers is an input, `none` for an error; the timer is left out.
use keel_mqtt_gateway.Prelude.{
  ℕ, ◌≡◌, Bool, true, false, not, Option, none, some, List, [], ◌∷◌, Str, Dict, lookup, has_some,
  if◌then◌else◌, arith,
}

pub record RevocationCache : Type 0 where
  pub revoked : Dict ℕ
  pub ready : Bool

-- NewRevocationCache, before its first refresh.
abbrev pub new_cache : RevocationCache
new_cache = record { revoked = []; ready = false }

-- refresh.
unfoldable pub refresh : Option (Dict ℕ) → RevocationCache → RevocationCache
refresh none c = c
refresh (some revoked) c = record { revoked = revoked; ready = true }

-- The refreshes of loop, one after another.
unfoldable pub refresh_all : List (Option (Dict ℕ)) → RevocationCache → RevocationCache
unfolding refresh
refresh_all [] c = c
refresh_all (fetched ∷ later) c = refresh_all later (refresh fetched c)

-- IsRevoked.
unfoldable pub cache_is_revoked : RevocationCache → Str → Bool
unfolding lookup
cache_is_revoked c identity = if not c.ready then true else has_some (lookup identity c.revoked)

-- The last fetch that succeeded, or what was there before.
abbrev pub last_fetched : List (Option (Dict ℕ)) → Option (Dict ℕ) → Option (Dict ℕ)
last_fetched [] known = known
last_fetched (none ∷ later) known = last_fetched later known
last_fetched (some revoked ∷ later) known = last_fetched later (some revoked)

abbrev pub known_revoked : Option (Dict ℕ) → Str → Bool
unfolding lookup
known_revoked none identity = true
known_revoked (some revoked) identity = has_some (lookup identity revoked)

abbrev contents : RevocationCache → Option (Dict ℕ)
contents c = if c.ready then some c.revoked else none

refresh_all-contents :
    (fetches : List (Option (Dict ℕ))) (c : RevocationCache) (identity : Str)
    → cache_is_revoked (refresh_all fetches c) identity
      ≡ known_revoked (last_fetched fetches (contents c)) identity
unfolding refresh_all cache_is_revoked known_revoked
refresh_all-contents [] c identity = ground arith
refresh_all-contents (none ∷ later) c identity = refresh_all-contents later c identity
refresh_all-contents (some revoked ∷ later) c identity =
    refresh_all-contents later (record { revoked = revoked; ready = true }) identity

-- After any refreshes the cache answers as the last fetch that succeeded, and before the first
-- success it answers that every identity is revoked.
pub cache_is_revoked_lem :
    (fetches : List (Option (Dict ℕ))) (identity : Str)
    → cache_is_revoked (refresh_all fetches new_cache) identity
      ≡ known_revoked (last_fetched fetches none) identity
cache_is_revoked_lem fetches identity = refresh_all-contents fetches new_cache identity
