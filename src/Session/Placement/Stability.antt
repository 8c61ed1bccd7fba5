-- ===== src/Session/Placement/Stability.antt =====
-- placement.go: a node that joins or leaves moves only the sessions that it wins or held.
use keel_mqtt_gateway.Prelude.{
  ℕ, ◌≤◌, ◌≡◌, sym, ◌≢◌, ◌⊎◌, inl, inr, some, List, [], ◌∷◌, ◌++◌, Str, str_eq, str_eq_iff,
  Bool-cases, arith,
}
use keel_mqtt_gateway.Session.Placement.{rendezvous_score, best_of, owner}

-- A search that began with a node that lost would have ended alike from a node with a lower score.
best_of_lower :
    (c : Str) (ns : List Str) (m b n : Str) (sm sb : ℕ)
    → best_of c ns m sm ≡ n
    → n ≢ m
    → sb ≤ sm
    → best_of c ns b sb ≡ n
unfolding best_of
best_of_lower c [] m b n sm sb e ne h = absurd (ne (sym e))
best_of_lower c (x ∷ ns) m b n sm sb e ne h =
    let sx = rendezvous_score c x in
    ground (arith, best_of_lower c ns m b n sm sb, best_of_lower c ns m x n sm sx)

best_of_without :
    (c m n : Str) (xs ys : List Str) (b : Str) (sb : ℕ)
    → n ≢ m
    → best_of c (xs ++ m ∷ ys) b sb ≡ n
    → best_of c (xs ++ ys) b sb ≡ n
unfolding best_of
best_of_without c m n [] ys b sb ne e =
    ground (arith, best_of_lower c ys m b n (rendezvous_score c m) sb)
best_of_without c m n (x ∷ xs) ys b sb ne e =
    ground (
      arith,
      best_of_without c m n xs ys b sb,
      best_of_without c m n xs ys x (rendezvous_score c x),
    )

owner_without :
    (c m n : Str) (xs ys : List Str)
    → n ≢ m
    → owner c (xs ++ m ∷ ys) ≡ some n
    → owner c (xs ++ ys) ≡ some n
unfolding owner
owner_without c m n [] [] ne e = absurd (ne (ground arith))
owner_without c m n [] (y ∷ ys) ne e =
    let sm = rendezvous_score c m in
    let sy = rendezvous_score c y in
    let other : best_of c (y ∷ ys) m sm ≡ n = ground arith in
    unfold best_of in ground (arith, best_of_lower c ys m y n sm sy)
owner_without c m n (x ∷ xs) ys ne e =
    ground (arith, best_of_without c m n xs ys x (rendezvous_score c x))

-- When a node m joins, at any place in the list, a session's owner is m or stays what it was; when
-- m leaves, only the sessions that m owned get another owner.
pub owner_stable :
    (client_id m n : Str) (before after : List Str)
    → owner client_id (before ++ m ∷ after) ≡ some n
    → (n ≡ m) ⊎ (owner client_id (before ++ after) ≡ some n)
owner_stable c m n xs ys e = elim (Bool-cases (str_eq n m)) [
  | inl h ↦ inl ((str_eq_iff n m).0 h)
  | inr h ↦ inr (owner_without c m n xs ys (λ q. ground (arith, str_eq_iff n m)) e)
]
