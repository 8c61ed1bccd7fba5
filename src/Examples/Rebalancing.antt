-- ===== src/Examples/Rebalancing.antt =====
-- Two live nodes, one of which owns every session.
use mathlib.Core.List.Perm
use keel_mqtt_gateway.Prelude.{
  ℕ, suc, Bool, true, false, List, [], ◌∷◌, Str, Dict, codes, All, length, ◌≡◌, refl,
}
use keel_mqtt_gateway.Lifecycle.Rebalance.{RebalanceConfig, count_sessions, rebalance}
use keel_mqtt_gateway.Lifecycle.Rebalance.Grouping.{grouped}
use keel_mqtt_gateway.Lifecycle.Rebalance.Pass.{IsBounded, rebalance-IsBounded}

-- A fifth over the average is too much; at most two clients go; "b" stays.
abbrev config : RebalanceConfig
config = record {
  threshold_numerator = 1;
  threshold_denominator = 5;
  max_evictions_per_node = 2;
  has_stagger = true;
  exclude_client_ids = (codes "b", true) ∷ [];
}

abbrev unshuffled : List Str → List Str
unshuffled clients = clients

-- An evictor that counts its calls and never fails.
abbrev evict_all : Str → Str → ℕ → ℕ × Bool
evict_all node_id client_id n = (suc n, true)

abbrev sessions : Dict Str
sessions =
    (codes "a", codes "n1")
    ∷ (codes "b", codes "n1")
    ∷ (codes "c", codes "n1")
    ∷ (codes "d", codes "n1")
    ∷ (codes "e", codes "n3")
    ∷ []

abbrev live : Dict Bool
live = (codes "n1", true) ∷ (codes "n2", true) ∷ []

evicted_two : (rebalance config unshuffled evict_all (λ node i. false) false sessions live 0).0 ≡ 2
unfolding rebalance
evicted_two = refl

rebalance-IsBounded_example :
    All
      (IsBounded config sessions
        (count_sessions (grouped sessions live))
        (length (grouped sessions live)))
      (rebalance config unshuffled evict_all (λ node i. false) false sessions live 0).1.nodes
rebalance-IsBounded_example =
    rebalance-IsBounded config unshuffled evict_all (λ node i. false) false Perm.refl sessions live
      0
