-- ===== src/Examples/Failovers.antt =====
-- Three cores, the first of which is the primary.
use keel_mqtt_gateway.Prelude.{
  ℕ, ◌-◌, ◌≤◌, Bool, true, ◌≡◌, refl, some, List, [], ◌∷◌, Str, codes, str_eq, lookup, arith, Dict,
}
use keel_mqtt_gateway.Membership.Failover.{NodeMeta, Calls, asks_leader, pings, promotes, search}
use keel_mqtt_gateway.Membership.Failover.Promotion.{IsPromotion, search-IsPromotion}

abbrev core : Str → NodeMeta
core node_id = record { node_id = node_id; redis_addr = node_id }

abbrev c1 : Str
c1 = codes "c1"

abbrev c2 : Str
c2 = codes "c2"

abbrev cores : List NodeMeta
cores = core c1 ∷ core c2 ∷ core (codes "c3") ∷ []

abbrev all_well : Calls → Bool
all_well h = true

abbrev any_addr : Str → Bool
any_addr addr = true

search-IsPromotion_example :
    IsPromotion all_well c1 cores (promotes c2 ∷ asks_leader ∷ pings c2 ∷ []) (core c2)
unfolding search
search-IsPromotion_example =
    search-IsPromotion all_well any_addr c1 cores (promotes c2 ∷ asks_leader ∷ pings c2 ∷ [])
      (core c2) refl

-- The primary has been missing from gossip for 3 of 10 seconds.
abbrev missing : Dict ℕ
missing = (codes "c0", 5) ∷ []

within_window : (since : ℕ) → lookup (codes "c0") missing ≡ some since → 8 - since ≤ 10
unfolding lookup str_eq
within_window since e = omega arith
