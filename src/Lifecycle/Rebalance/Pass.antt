-- ===== src/Lifecycle/Rebalance/Pass.antt =====
-- rebalance.go: what one pass does to every node.
use mathlib.Core.List.{Perm}
use keel_mqtt_gateway.Prelude.{
  ℕ, suc, ◌+◌, ◌≤◌, ◌≡◌, refl, sym, ◌∙◌, ap, subst, Bool, true, false, not, ◌&&◌, Option, none,
  some, List, [], ◌∷◌, ◌++◌, Str, Dict, All, All-append, if_cases, length, length-append, is_nil,
  Option-cases, inl, inr, if◌then◌else◌, arith,
}
use keel_mqtt_gateway.Lifecycle.Rebalance.{
  RebalanceConfig, NodeResult, RebalanceResult, count_sessions, to_evict, evict_loop, start_result,
  node_loop, rebalance, within_threshold, round_average,
}
use keel_mqtt_gateway.Lifecycle.Rebalance.Grouping.{clients_of, grouped, grouped-entries}
use keel_mqtt_gateway.Lifecycle.Rebalance.Plan.{IsEvictable, to_evict-IsPlan}

-- What a pass has done to one node, told by the sessions that the node owned: it was over the
-- threshold, the tried evictions respect the cap and leave it at the target or above, and every
-- evicted client was the node's own and not excluded.
pub record IsBounded (cfg : RebalanceConfig) (sessions : Dict Str) (total nodes : ℕ)
    (r : NodeResult) : Type 0 where
  pub before : r.before ≡ length (clients_of r.node_id sessions)
  pub target : r.target ≡ round_average total nodes
  pub unbalanced : within_threshold cfg r.before total nodes ≡ false
  pub capped : length r.evicted + length r.evict_errs ≤ cfg.max_evictions_per_node
  pub not_below : length r.evicted + length r.evict_errs + r.target ≤ r.before
  pub own : All (IsEvictable cfg (clients_of r.node_id sessions)) r.evicted

module _ (cfg : RebalanceConfig) (shuffle : List Str → List Str) {W : Type 0}
    (evict : Str → Str → W → W × Bool) (ctx_done : Str → ℕ → Bool) (dry_run : Bool) where
  -- What the loop over the chosen clients adds to a result.
  record Extends (P : Str → Type 0) (n : ℕ) (r r' : NodeResult) : Type 0 where
    same_node : r'.node_id ≡ r.node_id
    same_before : r'.before ≡ r.before
    same_target : r'.target ≡ r.target
    counted : length r'.evicted + length r'.evict_errs ≤ length r.evicted + length r.evict_errs + n
    all_evicted : All P r'.evicted

  Extends-evicted :
      (P : Str → Type 0) (n : ℕ) (c : Str) (r r' : NodeResult)
      → Extends P n (record r { evicted = r.evicted ++ c ∷ [] }) r'
      → Extends P (suc n) r r'
  Extends-evicted P n c r r' e = record {
    same_node = e.same_node;
    same_before = e.same_before;
    same_target = e.same_target;
    counted = omega (arith, e.counted, length-append r.evicted (c ∷ []));
    all_evicted = e.all_evicted;
  }

  Extends-refused :
      (P : Str → Type 0) (n : ℕ) (c : Str) (r r' : NodeResult)
      → Extends P n (record r { evict_errs = r.evict_errs ++ c ∷ [] }) r'
      → Extends P (suc n) r r'
  Extends-refused P n c r r' e = record {
    same_node = e.same_node;
    same_before = e.same_before;
    same_target = e.same_target;
    counted = omega (arith, e.counted, length-append r.evict_errs (c ∷ []));
    all_evicted = e.all_evicted;
  }

  Extends-refl : (P : Str → Type 0) (n : ℕ) (r : NodeResult) → All P r.evicted → Extends P n r r
  Extends-refl P n r h = record {
    same_node = refl;
    same_before = refl;
    same_target = refl;
    counted = omega arith;
    all_evicted = h;
  }

  evict_loop-Extends :
      (P : Str → Type 0) (i : ℕ) (cs : List Str) (w : W) (r : NodeResult)
      → All P r.evicted
      → All P cs
      → Extends P (length cs) r (evict_loop cfg shuffle evict ctx_done dry_run i cs (w, r)).1
  unfolding evict_loop
  evict_loop-Extends P i [] w r h k = Extends-refl P 0 r h
  evict_loop-Extends P i (c ∷ cs) w r h k =
      let grown : All P (r.evicted ++ c ∷ []) = All-append P r.evicted (c ∷ []) h (k.0, tt) in
      let r₁ : NodeResult = record r { evicted = r.evicted ++ c ∷ [] } in
      let r₂ : NodeResult = record r { evict_errs = r.evict_errs ++ c ∷ [] } in
      let (w', done) = evict r.node_id c w in
      let Goal = λ (t : W × NodeResult × Bool). Extends P (suc (length cs)) r t.1 in
      if_cases Goal dry_run _ _
        (λ _. Extends-evicted P (length cs) c r _ (evict_loop-Extends P (suc i) cs w r₁ grown k.1))
        λ _.
          if_cases Goal (not done) _ _
            (λ _. Extends-refused P (length cs) c r _ (evict_loop-Extends P (suc i) cs w' r₂ h k.1))
            λ _.
              if_cases Goal (not (is_nil cs) && (cfg.has_stagger && ctx_done r.node_id i)) _ _
                (λ _. Extends-evicted P (length cs) c r r₁ (Extends-refl P (length cs) r₁ grown))
                λ _.
                  Extends-evicted P (length cs) c r _
                    (evict_loop-Extends P (suc i) cs w' r₁ grown k.1)

  module _ (shuffles : (xs : List Str) → Perm xs (shuffle xs)) (sessions : Dict Str) where
    node_result-IsBounded :
        (total nodes : ℕ) (node : Str) (clients cs : List Str) (w : W)
        → clients ≡ clients_of node sessions
        → to_evict cfg shuffle total nodes clients ≡ some cs
        → IsBounded cfg sessions total nodes
            (evict_loop cfg shuffle evict ctx_done dry_run 0 cs (
              w,
              start_result cfg shuffle evict ctx_done dry_run node
                  (length clients)
                  (round_average total nodes),
            )).1
    node_result-IsBounded total nodes node clients cs w own e =
        let plan = to_evict-IsPlan cfg shuffle shuffles total nodes clients cs e in
        let start =
          start_result cfg shuffle evict ctx_done dry_run node (length clients)
            (round_average total nodes) in
        let P = IsEvictable cfg (clients_of node sessions) in
        let mine : All P cs = subst (λ xs. All (IsEvictable cfg xs) cs) own plan.evictable in
        let x : Extends P (length cs) start
            (evict_loop cfg shuffle evict ctx_done dry_run 0 cs (w, start)).1 =
          evict_loop-Extends P 0 cs w start tt mine in
        let r : NodeResult = (evict_loop cfg shuffle evict ctx_done dry_run 0 cs (w, start)).1 in
        let same : node ≡ r.node_id = sym x.same_node in
        record {
          before = x.same_before ∙ ap length own ∙ ap (λ n. length (clients_of n sessions)) same;
          target = x.same_target;
          unbalanced =
              subst (λ n. within_threshold cfg n total nodes ≡ false) (sym x.same_before)
                plan.unbalanced;
          capped = omega (arith, x.counted, plan.capped);
          not_below = omega (arith, x.counted, plan.not_below, x.same_before, x.same_target);
          own =
              subst (λ n. All (IsEvictable cfg (clients_of n sessions)) r.evicted) same
                x.all_evicted;
        }

    node_loop-IsBounded :
        (total nodes : ℕ) (m : Dict (List Str)) (w : W) (results : List NodeResult)
        → All (λ e. e.1 ≡ clients_of e.0 sessions) m
        → All (IsBounded cfg sessions total nodes) results
        → All
            (IsBounded cfg sessions total nodes)
            (node_loop cfg shuffle evict ctx_done dry_run total nodes m (w, results)).1
    unfolding node_loop
    node_loop-IsBounded total nodes [] w results h k = k
    node_loop-IsBounded total nodes ((node, clients) ∷ m) w results h k =
        let P = IsBounded cfg sessions total nodes in
        let Goal = λ (t : W × List NodeResult × Bool). All P t.1 in
        let start =
          start_result cfg shuffle evict ctx_done dry_run node (length clients)
            (round_average total nodes) in
        let on_plan : Option (List Str) → W × List NodeResult × Bool = λ o. elim o [
          | none ↦ node_loop cfg shuffle evict ctx_done dry_run total nodes m (w, results)
          | some cs ↦
              let (w', r, stopped) =
                evict_loop cfg shuffle evict ctx_done dry_run 0 cs (w, start) in
              if stopped
              then (w', results ++ r ∷ [], true)
              else node_loop cfg shuffle evict ctx_done dry_run total nodes m
                  (w', results ++ r ∷ [])
        ] in
        elim (Option-cases (to_evict cfg shuffle total nodes clients)) [
          | inl e ↦
              subst (λ o. Goal (on_plan o)) (sym e)
                (node_loop-IsBounded total nodes m w results h.1 k)
          | inr (cs, e) ↦
              subst (λ o. Goal (on_plan o)) (sym e)
                (let r = evict_loop cfg shuffle evict ctx_done dry_run 0 cs (w, start) in
                  let grown : All P (results ++ r.1 ∷ []) =
                    All-append P results (r.1 ∷ []) k
                      (node_result-IsBounded total nodes node clients cs w h.0 e, tt) in
                  if_cases Goal r.2 _ _ (λ _. grown)
                    (λ _. node_loop-IsBounded total nodes m r.0 (results ++ r.1 ∷ []) h.1 grown))
        ]

    -- In a pass over any sessions and live nodes, with any evictor, run or dry, and a shuffle that
    -- only permutes: each node that the result lists was over the imbalance threshold; the tried
    -- evictions, done or failed, are at most the cap and leave it no fewer sessions than the
    -- rounded average; and every client counted as evicted had its session on that node and is not
    -- excluded.
    pub rebalance-IsBounded :
        (live : Dict Bool) (w : W)
        → All
            (IsBounded cfg sessions
              (count_sessions (grouped sessions live))
              (length (grouped sessions live)))
            (rebalance cfg shuffle evict ctx_done dry_run sessions live w).1.nodes
    unfolding rebalance
    rebalance-IsBounded live w =
        let m = grouped sessions live in
        let total = count_sessions m in
        let (w', results, stopped) =
          node_loop cfg shuffle evict ctx_done dry_run total (length m) m (w, []) in
        let result : List NodeResult → RebalanceResult = λ nodes. record {
          dry_run = dry_run;
          live_edge_nodes = length m;
          total_sessions = total;
          nodes = nodes;
        } in
        if_cases
          (λ (t : W × RebalanceResult × Bool).
            All (IsBounded cfg sessions total (length m)) t.1.nodes)
          (is_nil m) (w, result [], false) (w', result results, stopped) (λ _. tt)
          (λ _. node_loop-IsBounded total (length m) m w [] (grouped-entries sessions live) tt)
