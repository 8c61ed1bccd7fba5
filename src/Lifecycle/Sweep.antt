-- ===== src/Lifecycle/Sweep.antt =====
-- internal/cluster/lifecycle/routing_sweep.go: one tick of the sweep of orphaned routes. The members,
-- the nodes with routes and the clock are inputs, and so is whether a purge succeeds; the purges that
-- the tick asks for are a result.
use keel_mqtt_gateway.Prelude.{
  ℕ, ◌-◌, ◌<◌, ◌≡◌, refl, ◌⊎◌, inl, inr, Bool, true, false, not, ◌&&◌, Option, none, some, List, [],
  ◌∷◌, ◌++◌, Str, Dict, str_eq, str_eq_iff, lookup, insert, delete, lookup-insert, lookup-delete,
  has_some, ltb, All, All-append, if_cases, if◌then◌else◌, arith,
}

pub record RoutingSweep : Type 0 where
  pub absent_since : Dict ℕ
  pub flagged : Dict Bool

-- A set of strings: map[string]struct{}.
unfoldable pub to_set : List Str → Dict Bool
unfolding insert str_eq
to_set [] = []
to_set (x ∷ xs) = insert x true (to_set xs)

abbrev pub is_flagged : Str → RoutingSweep → Bool
is_flagged node_id s = elim (lookup node_id s.flagged) [ none ↦ false | some b ↦ b ]

-- clear.
unfoldable pub clear : Str → RoutingSweep → RoutingSweep
unfolding lookup delete str_eq
clear node_id s = if not (has_some (lookup node_id s.absent_since)) then s else record {
  absent_since = delete node_id s.absent_since;
  flagged = if is_flagged node_id s then delete node_id s.flagged else s.flagged;
}

module _ (purge_node : Str → Bool) (threshold now : ℕ) (live : Dict Bool) where
  -- The cases of a node that is absent from gossip.
  abbrev pub on_absent : Str → Option ℕ → RoutingSweep × List Str → RoutingSweep × List Str
  on_absent node_id none (s, purged) =
      (record s { absent_since = insert node_id now s.absent_since }, purged)
  on_absent node_id (some since) (s, purged) =
      let s' =
        if purge_node node_id then record s { flagged = insert node_id true s.flagged } else s in
      if ltb threshold (now - since) && not (is_flagged node_id s)
      then (s', purged ++ node_id ∷ [])
      else (s, purged)

  -- The body of the loop over the nodes that hold routes, with the purges so far.
  unfoldable pub visit_node : Str → RoutingSweep × List Str → RoutingSweep × List Str
  unfolding clear lookup insert str_eq
  visit_node node_id (s, purged) =
      if has_some (lookup node_id live)
      then (clear node_id s, purged)
      else on_absent node_id (lookup node_id s.absent_since) (s, purged)

  unfoldable pub visit_nodes : Dict Bool → RoutingSweep × List Str → RoutingSweep × List Str
  unfolding visit_node
  visit_nodes [] state = state
  visit_nodes ((node_id, held) ∷ holding) state = visit_nodes holding (visit_node node_id state)

-- The last loop, over the nodes that are tracked.
unfoldable pub clear_released : Dict Bool → Dict ℕ → RoutingSweep → RoutingSweep
unfolding clear lookup str_eq
clear_released holding [] s = s
clear_released holding ((node_id, since) ∷ tracked) s =
    clear_released holding tracked
      (if not (has_some (lookup node_id holding)) then clear node_id s else s)

-- tick.
unfoldable pub tick :
    (Str → Bool) → ℕ → ℕ → List Str → List Str → RoutingSweep → RoutingSweep × List Str
unfolding to_set visit_nodes clear_released
tick purge_node threshold now members nodes_with_routes s =
    let holding = to_set nodes_with_routes in
    let (s', purged) = visit_nodes purge_node threshold now (to_set members) holding (s, []) in
    (clear_released holding s'.absent_since s', purged)

-- Absent from gossip now, and since longer than the threshold when the tick began.
pub record IsOrphan (threshold now : ℕ) (live : Dict Bool) (start : RoutingSweep) (node_id : Str)
    : Type 0 where
  pub absent : lookup node_id live ≡ none
  pub since : ℕ
  pub tracked : lookup node_id start.absent_since ≡ some since
  pub overdue : threshold < now - since

module _ (purge_node : Str → Bool) (threshold now : ℕ) (live : Dict Bool)
    (start : RoutingSweep) where
  -- What is tracked was tracked before, or since now.
  abbrev Tracks : RoutingSweep → Type 0
  Tracks s =
      (n : Str) (since : ℕ)
      → lookup n s.absent_since ≡ some since
      → (lookup n start.absent_since ≡ some since) ⊎ (since ≡ now)

  abbrev Good : RoutingSweep × List Str → Type 0
  Good (s, purged) = Tracks s × All (IsOrphan threshold now live start) purged

  clear-Tracks : (node : Str) (s : RoutingSweep) → Tracks s → Tracks (clear node s)
  unfolding clear
  clear-Tracks node s v n since e =
      v n since (ground (arith, lookup-delete node n s.absent_since, str_eq_iff node n))

  insert-Tracks :
      (node : Str) (s : RoutingSweep)
      → Tracks s
      → Tracks (record s { absent_since = insert node now s.absent_since })
  insert-Tracks node s v n since e =
      ground (arith, v n since, lookup-insert node n now s.absent_since)

  on_absent-Good :
      (node : Str) (o : Option ℕ) (s : RoutingSweep) (purged : List Str)
      → lookup node live ≡ none
      → lookup node s.absent_since ≡ o
      → Good (s, purged)
      → Good (on_absent purge_node threshold now live node o (s, purged))
  on_absent-Good node none s purged a e (v, p) = (insert-Tracks node s v, p)
  on_absent-Good node (some since) s purged a e (v, p) =
      let flag = record s { flagged = insert node true s.flagged } in
      let s' : RoutingSweep = if purge_node node then flag else s in
      let v' : Tracks s' = if_cases Tracks (purge_node node) flag s (λ _. v) (λ _. v) in
      if_cases Good (ltb threshold (now - since) && not (is_flagged node s))
        (s', purged ++ node ∷ []) (s, purged)
        (λ h. (
          v',
          All-append (IsOrphan threshold now live start) purged (node ∷ []) p
              (orphan (v node since e) (ground arith), tt),
        ))
        (λ _. (v, p))
    where
      orphan :
          (lookup node start.absent_since ≡ some since) ⊎ (since ≡ now)
          → threshold < now - since
          → IsOrphan threshold now live start node
      orphan (inl t) h = record { absent = a; since = since; tracked = t; overdue = h }
      orphan (inr t) h = absurd (omega arith)

  visit_nodes-Good :
      (holding : Dict Bool) (s : RoutingSweep) (purged : List Str)
      → Good (s, purged)
      → Good (visit_nodes purge_node threshold now live holding (s, purged))
  unfolding visit_nodes visit_node
  visit_nodes-Good [] s purged g = g
  visit_nodes-Good ((node, held) ∷ holding) s purged g =
      let r = visit_node purge_node threshold now live node (s, purged) in
      visit_nodes-Good holding r.0 r.1 (visited (lookup node live) refl)
    where
      visited :
          (o : Option Bool)
          → lookup node live ≡ o
          → Good (
              if has_some o
              then (clear node s, purged)
              else on_absent purge_node threshold now live node
                  (lookup node s.absent_since)
                  (s, purged))
      visited none e = on_absent-Good node (lookup node s.absent_since) s purged e refl g
      visited (some b) e = (clear-Tracks node s g.0, g.1)

-- A tick of the routing sweep asks to purge only nodes that gossip does not report now and that
-- were tracked as absent, when the tick began, for longer than the threshold; a node that it starts
-- to track is not purged in the same tick.
pub tick-IsOrphan :
    (purge_node : Str → Bool) (threshold now : ℕ) (members nodes_with_routes : List Str)
    (s : RoutingSweep)
    → All
        (IsOrphan threshold now (to_set members) s)
        (tick purge_node threshold now members nodes_with_routes s).1
unfolding tick
tick-IsOrphan purge_node threshold now members nodes_with_routes s =
    (visit_nodes-Good purge_node threshold now (to_set members) s (to_set nodes_with_routes) s []
      ((λ n since e. inl e), tt)).1
