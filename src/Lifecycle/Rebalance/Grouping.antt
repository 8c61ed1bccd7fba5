-- ===== src/Lifecycle/Rebalance/Grouping.antt =====
-- rebalance.go: the sessions grouped by node.
use mathlib.Core.List.{append-nil, append_assoc}
use keel_mqtt_gateway.Prelude.{
  ◌≡◌, refl, sym, ◌∙◌, ap, ◌⊎◌, inl, Bool, true, false, Option, none, some, List, [], ◌∷◌, ◌++◌,
  Str, Dict, str_eq, str_eq_iff, lookup, insert, lookup-insert, IsMap, insert-IsMap, entries-lookup,
  All, All-mono, if◌then◌else◌, arith,
}
use keel_mqtt_gateway.Lifecycle.Rebalance.{empty_nodes, group_sessions, add_client}

-- The clients whose session a node owns.
abbrev pub clients_of : Str → Dict Str → List Str
clients_of node [] = []
clients_of node ((c, n) ∷ sessions) =
    if str_eq n node then c ∷ clients_of node sessions else clients_of node sessions

abbrev extended : Option (List Str) → List Str → Option (List Str)
extended none cs = none
extended (some xs) cs = some (xs ++ cs)

extended-nil : (o : Option (List Str)) → o ≡ extended o []
extended-nil none = refl
extended-nil (some xs) = ap some (sym (append-nil xs))

add_client-lookup :
    (c n node : Str) (m : Dict (List Str)) (o : Option (List Str))
    → lookup n m ≡ o
    → lookup node (add_client c n o m)
      ≡ (if str_eq n node then extended (lookup node m) (c ∷ []) else lookup node m)
add_client-lookup c n node m none e = ground (arith, str_eq_iff n node)
add_client-lookup c n node m (some xs) e =
    ground (arith, str_eq_iff n node, lookup-insert n node (xs ++ c ∷ []) m)

extended_twice :
    (o : Option (List Str)) (c : Str) (cs : List Str)
    → extended (extended o (c ∷ [])) cs ≡ extended o (c ∷ cs)
extended_twice none c cs = refl
extended_twice (some xs) c cs = ap some (append_assoc xs (c ∷ []) cs)

group_sessions-lookup :
    (node : Str) (sessions : Dict Str) (m : Dict (List Str))
    → lookup node (group_sessions sessions m) ≡ extended (lookup node m) (clients_of node sessions)
unfolding group_sessions
group_sessions-lookup node [] m = extended-nil (lookup node m)
group_sessions-lookup node ((c, n) ∷ sessions) m =
    let m' = add_client c n (lookup n m) m in
    ground (
      arith,
      group_sessions-lookup node sessions m',
      add_client-lookup c n node m (lookup n m) refl,
      extended_twice (lookup node m) c (clients_of node sessions),
    )

add_client-IsMap :
    (c n : Str) (o : Option (List Str)) (m : Dict (List Str)) → IsMap m → IsMap (add_client c n o m)
add_client-IsMap c n none m u = u
add_client-IsMap c n (some xs) m u = insert-IsMap n (xs ++ c ∷ []) m u

group_sessions-IsMap :
    (sessions : Dict Str) (m : Dict (List Str)) → IsMap m → IsMap (group_sessions sessions m)
unfolding group_sessions
group_sessions-IsMap [] m u = u
group_sessions-IsMap ((c, n) ∷ sessions) m u =
    group_sessions-IsMap sessions (add_client c n (lookup n m) m)
      (add_client-IsMap c n (lookup n m) m u)

-- Each entry starts empty.
abbrev IsEmpty : Option (List Str) → Type 0
IsEmpty o = (o ≡ none) ⊎ (o ≡ some [])

empty_nodes-lookup :
    (node : Str) (nodes : Dict Bool) (m : Dict (List Str))
    → IsEmpty (lookup node m)
    → IsEmpty (lookup node (empty_nodes nodes m))
unfolding empty_nodes
empty_nodes-lookup node [] m h = h
empty_nodes-lookup node ((id, live) ∷ nodes) m h =
    empty_nodes-lookup node nodes (if live then insert id [] m else m)
      (ground (arith, lookup-insert id node [] m))

empty_nodes-IsMap :
    (nodes : Dict Bool) (m : Dict (List Str)) → IsMap m → IsMap (empty_nodes nodes m)
unfolding empty_nodes
empty_nodes-IsMap [] m u = u
empty_nodes-IsMap ((id, true) ∷ nodes) m u =
    empty_nodes-IsMap nodes (insert id [] m) (insert-IsMap id [] m u)
empty_nodes-IsMap ((id, false) ∷ nodes) m u = empty_nodes-IsMap nodes m u

-- The table that Rebalance works on.
abbrev pub grouped : Dict Str → Dict Bool → Dict (List Str)
grouped sessions live = group_sessions sessions (empty_nodes live [])

grouped-clients_of :
    (sessions : Dict Str) (live : Dict Bool) (node : Str) (cs : List Str)
    → lookup node (grouped sessions live) ≡ some cs
    → cs ≡ clients_of node sessions
grouped-clients_of sessions live node cs h =
    let e = group_sessions-lookup node sessions (empty_nodes live []) in
    from (lookup node (empty_nodes live []))
      (empty_nodes-lookup node live [] (unfold lookup in inl refl)) (sym h ∙ e)
  where
    from :
        (o : Option (List Str))
        → IsEmpty o
        → some cs ≡ extended o (clients_of node sessions)
        → cs ≡ clients_of node sessions
    from none d q = cc
    from (some []) d q = ground arith
    from (some (x ∷ xs)) d q = ground arith

-- Every entry of the table is a node with the clients whose session it owns.
pub grouped-entries :
    (sessions : Dict Str) (live : Dict Bool)
    → All (λ e. e.1 ≡ clients_of e.0 sessions) (grouped sessions live)
grouped-entries sessions live =
    let m = grouped sessions live in
    All-mono (λ e. lookup e.0 m ≡ some e.1) (λ e. e.1 ≡ clients_of e.0 sessions)
      (λ e h. grouped-clients_of sessions live e.0 e.1 h) m
      (entries-lookup m (group_sessions-IsMap sessions _ (empty_nodes-IsMap live [] tt)))
