-- ===== src/Lifecycle/Rebalance/Plan.antt =====
-- rebalance.go: how many clients of one node are chosen, and which.
use mathlib.Core.Bool.{Bool-set}
use mathlib.Core.HLevel.{×_prop}
use mathlib.Core.List.{Mem, Mem-prop, mem-cons_self, mem-cons_of_mem, Perm}
use keel_mqtt_gateway.Prelude.{
  ℕ, ◌+◌, ◌-◌, ◌≤◌, ◌<◌, ◌≡◌, refl, sym, ap, ◌∙◌, subst, Bool, false, not, some, List, [], ◌∷◌, Str,
  All, All-take, All-Perm, length, length-take, length-Perm, take, keep, lookup, is_nil, Dict,
  All-keep, All-mono, if◌then◌else◌, arith,
}
use keel_mqtt_gateway.Lifecycle.Rebalance.{
  RebalanceConfig, within_threshold, round_average, is_excluded, at_most, to_evict,
}

-- A client of the list that is not excluded.
abbrev pub IsEvictable : RebalanceConfig → List Str → Str → Type 0
IsEvictable cfg clients c = Mem c clients × (is_excluded cfg c ≡ false)

All-Mem-cons :
    (c : Str) (all clients : List Str)
    → All (λ x. Mem x all) clients
    → All (λ x. Mem x (c ∷ all)) clients
All-Mem-cons c all [] h = tt
All-Mem-cons c all (x ∷ clients) h = (mem-cons_of_mem c h.0, All-Mem-cons c all clients h.1)

All-Mem : (clients : List Str) → All (λ x. Mem x clients) clients
All-Mem [] = tt
All-Mem (c ∷ clients) = (mem-cons_self, All-Mem-cons c clients clients (All-Mem clients))

-- What is chosen from a node: some clients that it holds and that are not excluded, no more than
-- the cap, and no more than leave it at the rounded average; the node is out of balance.
pub record IsPlan (cfg : RebalanceConfig) (total nodes : ℕ) (clients xs : List Str) : Type 0 where
  pub not_empty : 0 < length xs
  pub capped : length xs ≤ cfg.max_evictions_per_node
  pub not_below : length xs + round_average total nodes ≤ length clients
  pub unbalanced : within_threshold cfg (length clients) total nodes ≡ false
  pub evictable : All (IsEvictable cfg clients) xs

module _ (cfg : RebalanceConfig) (shuffle : List Str → List Str)
    (shuffles : (xs : List Str) → Perm xs (shuffle xs)) where
  abbrev candidates : List Str → List Str
  candidates clients =
      if is_nil cfg.exclude_client_ids then clients else keep (λ c. not (is_excluded cfg c)) clients

  candidates-IsEvictable : (clients : List Str) → All (IsEvictable cfg clients) (candidates clients)
  candidates-IsEvictable clients = with_excluded cfg.exclude_client_ids refl
    where
      with_excluded :
          (m : Dict Bool)
          → cfg.exclude_client_ids ≡ m
          → All (IsEvictable cfg clients) (candidates clients)
      with_excluded [] e =
          subst
            (λ d.
              All (IsEvictable cfg clients)
                (if is_nil d then clients else keep (λ c. not (is_excluded cfg c)) clients))
            (sym e)
            (All-mono (λ c. Mem c clients) (IsEvictable cfg clients)
              (λ c m. (m, unfold lookup in ground arith)) clients (All-Mem clients))
      with_excluded (x ∷ m) e =
          subst
            (λ d.
              All (IsEvictable cfg clients)
                (if is_nil d then clients else keep (λ c. not (is_excluded cfg c)) clients))
            (sym e)
            (All-keep (λ c. Mem c clients) (IsEvictable cfg clients) (λ c. not (is_excluded cfg c))
              (λ c m h. (m, ground arith)) clients (All-Mem clients))

  IsEvictable-prop : (clients : List Str) (c : Str) → IsProp (IsEvictable cfg clients c)
  IsEvictable-prop clients c = ×_prop Mem-prop (Bool-set _ _)

  abbrev excess : ℕ → ℕ → List Str → ℕ
  excess total nodes clients =
      at_most cfg.max_evictions_per_node (length clients - round_average total nodes)

  abbrev bounded : ℕ → ℕ → List Str → ℕ
  bounded total nodes clients = at_most (length (candidates clients)) (excess total nodes clients)

  -- The tests that let a node through, and the clients that are then taken.
  to_evict-some :
      (total nodes : ℕ) (clients xs : List Str)
      → to_evict cfg shuffle total nodes clients ≡ some xs
      → (within_threshold cfg (length clients) total nodes ≡ false)
        × (0 < excess total nodes clients)
        × (0 < bounded total nodes clients)
        × (take (bounded total nodes clients) (shuffle (candidates clients)) ≡ xs)
  unfolding to_evict
  to_evict-some total nodes clients xs e = ground arith

  taken_length :
      (total nodes : ℕ) (clients : List Str)
      → length (take (bounded total nodes clients) (shuffle (candidates clients)))
        ≡ bounded total nodes clients
  taken_length total nodes clients =
      let cs = candidates clients in
      ground
        (arith, length-take (bounded total nodes clients) (shuffle cs), length-Perm (shuffles cs))

  -- What is chosen from a node, where the shuffle only permutes: some clients that it holds and
  -- that are not excluded, no more than the cap, and no more than leave it at the rounded average;
  -- and the node is over the threshold.
  pub to_evict-IsPlan :
      (total nodes : ℕ) (clients xs : List Str)
      → to_evict cfg shuffle total nodes clients ≡ some xs
      → IsPlan cfg total nodes clients xs
  to_evict-IsPlan total nodes clients xs e =
      let (unbalanced, excess_pos, bounded_pos, taken) = to_evict-some total nodes clients xs e in
      let len : length xs ≡ bounded total nodes clients =
        ap length (sym taken) ∙ taken_length total nodes clients in
      record {
        not_empty = omega arith;
        capped = ground arith;
        not_below = ground arith;
        unbalanced = unbalanced;
        evictable = subst (All (IsEvictable cfg clients)) taken (
            All-take (IsEvictable cfg clients) (bounded total nodes clients)
              (shuffle (candidates clients))
              (All-Perm (IsEvictable cfg clients) (IsEvictable-prop clients)
                (shuffles (candidates clients)) (candidates-IsEvictable clients)));
      }
