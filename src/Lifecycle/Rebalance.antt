-- ===== src/Lifecycle/Rebalance.antt =====
-- internal/cluster/lifecycle/rebalance.go. The evictor acts on a state W; the shuffle and whether
-- the context is done in a pause are inputs. Averages are fractions of natural numbers in place of
-- float64, and the threshold is the fraction numerator / denominator. An int that is compared with
-- 0 and skipped below it, such as the excess, is the natural number that stops at 0.
pub mod Grouping
pub mod Plan
pub mod Pass
use keel_mqtt_gateway.Prelude.{
  ℕ, suc, zero, ◌+◌, ◌-◌, ◌*◌, ◌/◌, Bool, true, false, not, ◌&&◌, Option, none, some, List, [], ◌∷◌,
  ◌++◌, Str, Dict, str_eq, lookup, insert, length, take, keep, is_nil, leb, ltb, ◌==◌,
  if◌then◌else◌,
}

pub record NodeMeta : Type 0 where
  pub node_id : Str
  pub is_edge : Bool

-- LiveEdgeNodes.
unfoldable pub live_edge_nodes : List NodeMeta → Dict Bool
unfolding insert str_eq
live_edge_nodes [] = []
live_edge_nodes (meta ∷ members) =
    let rest = live_edge_nodes members in
    if meta.is_edge then insert meta.node_id true rest else rest

pub record RebalanceConfig : Type 0 where
  pub threshold_numerator : ℕ
  pub threshold_denominator : ℕ
  pub max_evictions_per_node : ℕ
  pub has_stagger : Bool
  pub exclude_client_ids : Dict Bool

pub record NodeResult : Type 0 where
  pub node_id : Str
  pub before : ℕ
  pub target : ℕ
  pub evicted : List Str
  pub evict_errs : List Str

pub record RebalanceResult : Type 0 where
  pub dry_run : Bool
  pub live_edge_nodes : ℕ
  pub total_sessions : ℕ
  pub nodes : List NodeResult

-- The first loop: an empty list for each live edge node.
unfoldable pub empty_nodes : Dict Bool → Dict (List Str) → Dict (List Str)
unfolding insert str_eq
empty_nodes [] m = m
empty_nodes ((id, live) ∷ nodes) m = empty_nodes nodes (if live then insert id [] m else m)

abbrev add_client : Str → Str → Option (List Str) → Dict (List Str) → Dict (List Str)
add_client client_id node_id none m = m
add_client client_id node_id (some clients) m = insert node_id (clients ++ client_id ∷ []) m

-- The second loop: the sessions of the live edge nodes, by node.
unfoldable pub group_sessions : Dict Str → Dict (List Str) → Dict (List Str)
unfolding lookup insert str_eq
group_sessions [] m = m
group_sessions ((client_id, node_id) ∷ sessions) m =
    group_sessions sessions (add_client client_id node_id (lookup node_id m) m)

-- `total` of the second loop.
unfoldable pub count_sessions : Dict (List Str) → ℕ
count_sessions [] = 0
count_sessions ((node_id, clients) ∷ m) = length clients + count_sessions m

-- float64(count) <= average * (1 + ImbalanceThreshold), with both sides multiplied out.
abbrev pub within_threshold : RebalanceConfig → ℕ → ℕ → ℕ → Bool
within_threshold cfg count total nodes =
    leb (count * nodes * cfg.threshold_denominator)
      (total * (cfg.threshold_denominator + cfg.threshold_numerator))

-- int(math.Round(average)): halves go up.
abbrev pub round_average : ℕ → ℕ → ℕ
round_average total nodes = (2 * total + nodes) / (2 * nodes)

abbrev pub is_excluded : RebalanceConfig → Str → Bool
is_excluded cfg c = elim (lookup c cfg.exclude_client_ids) [ none ↦ false | some b ↦ b ]

abbrev at_most : ℕ → ℕ → ℕ
at_most limit n = if ltb limit n then limit else n

module _ (cfg : RebalanceConfig) (shuffle : List Str → List Str) where
  -- The body of the node loop up to `toEvict`: `none` is a continue.
  unfoldable pub to_evict : ℕ → ℕ → List Str → Option (List Str)
  unfolding lookup str_eq
  to_evict total nodes clients =
      let count = length clients in
      let excess = at_most cfg.max_evictions_per_node (count - round_average total nodes) in
      let evictable =
        if is_nil cfg.exclude_client_ids
        then clients
        else keep (λ c. not (is_excluded cfg c)) clients in
      let bounded = at_most (length evictable) excess in
      if within_threshold cfg count total nodes
      then none
      else if excess == 0
      then none
      else if bounded == 0
      then none
      else some (take bounded (shuffle evictable))

  module _ {W : Type 0} (evict : Str → Str → W → W × Bool) (ctx_done : Str → ℕ → Bool)
      (dry_run : Bool) where
    -- The loop over `toEvict` from the index i on; the last component says that the context ended
    -- the pass.
    unfoldable pub evict_loop : ℕ → List Str → W × NodeResult → W × NodeResult × Bool
    evict_loop i [] (w, r) = (w, r, false)
    evict_loop i (c ∷ cs) (w, r) =
        let (w', done) = evict r.node_id c w in
        let planned = evict_loop (suc i) cs (w, record r { evicted = r.evicted ++ c ∷ [] }) in
        let refused =
          evict_loop (suc i) cs (w', record r { evict_errs = r.evict_errs ++ c ∷ [] }) in
        let r' = record r { evicted = r.evicted ++ c ∷ [] } in
        let onward = evict_loop (suc i) cs (w', r') in
        if dry_run
        then planned
        else if not done
        then refused
        else if not (is_nil cs) && (cfg.has_stagger && ctx_done r.node_id i)
        then (w', r', true)
        else onward

    abbrev pub start_result : Str → ℕ → ℕ → NodeResult
    start_result node_id before target = record {
      node_id = node_id;
      before = before;
      target = target;
      evicted = [];
      evict_errs = [];
    }

    -- The loop over the nodes.
    unfoldable pub node_loop :
        ℕ → ℕ → Dict (List Str) → W × List NodeResult → W × List NodeResult × Bool
    unfolding to_evict evict_loop
    node_loop total nodes [] (w, results) = (w, results, false)
    node_loop total nodes ((node_id, clients) ∷ m) (w, results) =
        let start = start_result node_id (length clients) (round_average total nodes) in
        let skipped = node_loop total nodes m (w, results) in
        elim (to_evict total nodes clients) [
          | none ↦ skipped
          | some cs ↦
              let (w', r, stopped) = evict_loop 0 cs (w, start) in
              let onward = node_loop total nodes m (w', results ++ r ∷ []) in
              if stopped then (w', results ++ r ∷ [], true) else onward
        ]

    -- Rebalance, with an evictor or in a dry run; the last component is ctx.Err().
    unfoldable pub rebalance : Dict Str → Dict Bool → W → W × RebalanceResult × Bool
    unfolding empty_nodes group_sessions count_sessions node_loop
    rebalance sessions node_is_live_edge w =
        let m = group_sessions sessions (empty_nodes node_is_live_edge []) in
        let total = count_sessions m in
        let (w', results, stopped) = node_loop total (length m) m (w, []) in
        let result : List NodeResult → RebalanceResult = λ nodes. record {
          dry_run = dry_run;
          live_edge_nodes = length m;
          total_sessions = total;
          nodes = nodes;
        } in
        if is_nil m then (w, result [], false) else (w', result results, stopped)
