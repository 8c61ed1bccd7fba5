-- ===== src/Session/Placement/Score.antt =====
-- placement.go: the owner is a node with the highest score, and which one does not depend on the
-- order of the nodes.
use mathlib.Core.List.{Mem, Mem-prop, mem-cons_self, mem-cons_of_mem, mem-cons, not-mem-nil, Perm}
use mathlib.Core.List.Perm
use mathlib.Core.Logic.Or
use native.Mathlib.Bridge.{le_prop}
use keel_mqtt_gateway.Prelude.{
  ℕ, ◌≤◌, ◌≡◌, refl, subst, ◌⊎◌, inl, inr, Bool, true, false, none, some, List, [], ◌∷◌, Str, ltb,
  All, if◌then◌else◌, Bool-cases, arith,
}
use keel_mqtt_gateway.Session.Placement.{rendezvous_score, best_of, owner}

-- The node is one of the list and no other scores higher.
pub record IsBest (client_id : Str) (nodes : List Str) (n : Str) : Type 0 where
  pub member : Mem n nodes
  pub highest : All (λ m. rendezvous_score client_id m ≤ rendezvous_score client_id n) nodes

All-mem {ℓ} :
    {A : Type ℓ} (f : A → ℕ) (bound : ℕ) (a : A) (xs : List A)
    → All (λ x. f x ≤ bound) xs
    → Mem a xs
    → f a ≤ bound
All-mem f bound a [] h m = absurd (not-mem-nil m)
All-mem f bound a (x ∷ xs) h m =
    Or.elim le_prop (mem-cons.0 m) (λ e. rw e h.0) (All-mem f bound a xs h.1)

-- The best so far loses to the next node, or the next node is passed over.
IsBest-better :
    (c b x n : Str) (ns : List Str)
    → rendezvous_score c b ≤ rendezvous_score c x
    → IsBest c (x ∷ ns) n
    → IsBest c (b ∷ x ∷ ns) n
IsBest-better c b x n ns h best = record {
  member = mem-cons_of_mem b best.member;
  highest = (omega (arith, best.highest.0), best.highest);
}

IsBest-same :
    (c b x n : Str) (ns : List Str)
    → rendezvous_score c x ≤ rendezvous_score c b
    → IsBest c (b ∷ ns) n
    → IsBest c (b ∷ x ∷ ns) n
IsBest-same c b x n ns h best = record {
  member =
      Or.elim Mem-prop (mem-cons.0 best.member) (λ e. rw e mem-cons_self)
        (λ m. mem-cons_of_mem b (mem-cons_of_mem x m));
  highest = (best.highest.0, (omega (arith, best.highest.0), best.highest.1));
}

best_of_cons :
    (c b x : Str) (ns : List Str) (sb : ℕ) (better : Bool)
    → ltb sb (rendezvous_score c x) ≡ better
    → (if better then best_of c ns x (rendezvous_score c x) else best_of c ns b sb)
      ≡ best_of c (x ∷ ns) b sb
unfolding best_of
best_of_cons c b x ns sb better h = ground arith

best_of-IsBest :
    (c : Str) (ns : List Str) (b : Str) → IsBest c (b ∷ ns) (best_of c ns b (rendezvous_score c b))
best_of-IsBest c [] b =
    unfold best_of in record { member = mem-cons_self; highest = (omega arith, tt) }
best_of-IsBest c (x ∷ ns) b =
    let sx = rendezvous_score c x in
    let sb = rendezvous_score c b in
    let after = best_of-IsBest c ns x in
    let kept = best_of-IsBest c ns b in
    elim (Bool-cases (ltb sb sx)) [
      | inl h ↦
          subst (IsBest c (b ∷ x ∷ ns)) (best_of_cons c b x ns sb true h)
            (IsBest-better c b x _ ns (ground arith) after)
      | inr h ↦
          subst (IsBest c (b ∷ x ∷ ns)) (best_of_cons c b x ns sb false h)
            (IsBest-same c b x _ ns (ground arith) kept)
    ]

-- A cluster with an edge node gives every session an owner: one of the nodes, with a score that
-- none of them exceeds. Without one there is no owner.
pub owner-IsBest :
    (client_id : Str) (nodes : List Str)
    → ((nodes ≡ []) × (owner client_id nodes ≡ none))
      ⊎ ((n : Str) × (owner client_id nodes ≡ some n) × IsBest client_id nodes n)
owner-IsBest c [] = unfold owner in inl (refl, refl)
owner-IsBest c (n ∷ ns) = unfold owner in inr (_, refl, best_of-IsBest c ns n)

-- Nodes whose scores for the client collide only where they are one node.
abbrev pub ScoresDistinct : Str → List Str → Type 0
ScoresDistinct c nodes =
    (m n : Str) → Mem m nodes → Mem n nodes → rendezvous_score c m ≡ rendezvous_score c n → m ≡ n

IsBest-unique :
    (c m n : Str) (nodes nodes' : List Str)
    → ScoresDistinct c nodes
    → Perm nodes nodes'
    → IsBest c nodes m
    → IsBest c nodes' n
    → m ≡ n
IsBest-unique c m n nodes nodes' d p bm bn =
    let f = rendezvous_score c in
    let n-in : Mem n nodes = (Perm.mem_iff p).1 bn.member in
    let m-in : Mem m nodes' = (Perm.mem_iff p).0 bm.member in
    d m n bm.member n-in (
      omega
        (arith, All-mem f (f m) n nodes bm.highest n-in, All-mem f (f n) m nodes' bn.highest m-in))

-- Every node that knows the same edge nodes, in whatever order, computes the same owner, as long as
-- no two of them collide in their scores for the client.
pub owner-Perm :
    (client_id : Str) (nodes nodes' : List Str)
    → ScoresDistinct client_id nodes
    → Perm nodes nodes'
    → owner client_id nodes ≡ owner client_id nodes'
owner-Perm c nodes nodes' d p = both (owner-IsBest c nodes) (owner-IsBest c nodes')
  where
    Outcome : List Str → Type 0
    Outcome ns =
        ((ns ≡ []) × (owner c ns ≡ none)) ⊎ ((n : Str) × (owner c ns ≡ some n) × IsBest c ns n)

    both : Outcome nodes → Outcome nodes' → owner c nodes ≡ owner c nodes'
    both (inl (e, o)) (inl (e', o')) = cc
    both (inl (e, o)) (inr (n, o', b)) =
        absurd (not-mem-nil (subst (Mem n) e ((Perm.mem_iff p).1 b.member)))
    both (inr (n, o, b)) (inl (e', o')) =
        absurd (not-mem-nil (subst (Mem n) e' ((Perm.mem_iff p).0 b.member)))
    both (inr (m, o, b)) (inr (n, o', b')) = cc (IsBest-unique c m n nodes nodes' d p b b')
