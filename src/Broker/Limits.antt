-- ===== src/Broker/Limits.antt =====
-- internal/broker/ratelimit.go: one token bucket for each key. The bucket is of package rate: its
-- state and Allow are parameters. The time of a call is an input.
pub mod Independence
use keel_mqtt_gateway.Prelude.{
  ℕ, ◌-◌, Bool, true, false, Option, none, some, List, [], ◌∷◌, Str, Dict, str_eq, lookup, insert,
  ltb, if◌then◌else◌,
}

module _ (Bucket : Type 0) (new_bucket : Bucket) (take_token : ℕ → Bucket → Bool × Bucket) where
  -- rateLimiterEntry.
  pub record RateLimiterEntry : Type 0 where
    pub limiter : Bucket
    pub last_seen : ℕ

  -- The buckets of a keyedRateLimiter.
  abbrev pub Entries : Type 0
  Entries = Dict RateLimiterEntry

  abbrev pub bucket_of : Option RateLimiterEntry → Bucket
  bucket_of none = new_bucket
  bucket_of (some e) = e.limiter

  -- allow.
  unfoldable pub allow : ℕ → Str → Entries → Bool × Entries
  unfolding lookup insert
  allow now key entries =
      let (ok, bucket) = take_token now (bucket_of (lookup key entries)) in
      (ok, insert key (record { limiter = bucket; last_seen = now }) entries)

  -- sweep.
  unfoldable pub sweep : ℕ → ℕ → Entries → Entries
  sweep ttl now [] = []
  sweep ttl now ((key, e) ∷ entries) =
      let rest = sweep ttl now entries in
      if ltb ttl (now - e.last_seen) then rest else (key, e) ∷ rest
