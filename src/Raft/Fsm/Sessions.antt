-- ===== src/Raft/Fsm/Sessions.antt =====
-- fsm.go, OpClaimSession and OpReleaseSession: who owns a session, and for how long.
use keel_mqtt_gateway.Prelude.{
  ℕ, ◌≡◌, refl, sym, subst, ◌≢◌, inl, inr, Bool, true, false, not, ◌&&◌, ◌||◌, Option, none, some,
  List, [], ◌∷◌, Str, str_eq, str_eq_iff, lookup, lookup-insert, lookup-delete, has_some, All,
  is_nil, if◌then◌else◌, Bool-cases, Option-cases, arith,
}
use keel_mqtt_gateway.Raft.Command.{Command, op_claim_session, op_release_session}
use keel_mqtt_gateway.Raft.Fsm.{
  State, ApplyResult, applied, evicted_from, claim_session, release_session, delete_role,
  create_binding, delete_binding, apply, apply_log, replay,
}
use keel_mqtt_gateway.Raft.Fsm.Steps.{
  Step, claims, releases, creates_role, deletes_role, creates_binding, deletes_binding, enables,
  disables, sets_primary, revokes, rejects, apply-Step, keeps-apply_log, apply_claim, apply_release,
}

-- The node that a claim takes a session from: the owner before, if it was another node.
pub data Takeover : Option Str → Str → Str → Type 0 where
  fresh : (node : Str) → Takeover none node []
  again : (node : Str) → Takeover (some node) node []
  moved : (owner node : Str) → owner ≢ node → Takeover (some owner) node owner

evicted_from-Takeover :
    (owner : Option Str) (node : Str) → Takeover owner node (evicted_from owner node)
evicted_from-Takeover none node = fresh node
evicted_from-Takeover (some owner) node = elim (Bool-cases (str_eq owner node)) [
  | inl e ↦
      rw e (subst (λ o. Takeover (some o) node []) (sym ((str_eq_iff owner node).0 e)) (again node))
  | inr e ↦ rw e (moved owner node (λ q. ground (arith, str_eq_iff owner node)))
]

-- A claim_session command makes the node the owner, records or clears the identity, leaves every
-- other client alone, and names the node that must drop the client.
pub claim_session_lem :
    (now : ℕ) (cmd : Command) (s : State) (c : Str)
    → cmd.op ≡ op_claim_session
    → let (t, result) = apply now cmd s in
      (lookup c t.sessions
        ≡ (if str_eq cmd.client_id c then some cmd.node_id else lookup c s.sessions))
      × (lookup c t.session_identity ≡ (
          if str_eq cmd.client_id c
          then (if is_nil cmd.identity then none else some cmd.identity)
          else lookup c s.session_identity))
      × ((evicted : Str) × (result ≡ applied evicted)
          × Takeover (lookup cmd.client_id s.sessions) cmd.node_id evicted)
unfolding claim_session
claim_session_lem now cmd s c h = rw (apply_claim now cmd s h) (
  lookup-insert cmd.client_id c cmd.node_id s.sessions,
  ground (
    arith,
    lookup-insert cmd.client_id c cmd.identity s.session_identity,
    lookup-delete cmd.client_id c s.session_identity,
  ),
  (evicted_from (lookup cmd.client_id s.sessions) cmd.node_id, refl, evicted_from-Takeover _ _),
)

-- A release by a node that is not the owner changes nothing.
pub release_session_stale :
    (now : ℕ) (cmd : Command) (s : State)
    → cmd.op ≡ op_release_session
    → lookup cmd.client_id s.sessions ≢ some cmd.node_id
    → (apply now cmd s).0 ≡ s
unfolding release_session
release_session_stale now cmd s h ne =
    rw (apply_release now cmd s h) (elim (Option-cases (lookup cmd.client_id s.sessions)) [
      | inl e ↦ ground arith
      | inr (o, e) ↦ ground (arith, str_eq_iff o cmd.node_id)
    ])

-- A release by the owner clears the session and its identity, and nothing of any other client.
pub release_session_owner :
    (now : ℕ) (cmd : Command) (s : State) (c : Str)
    → cmd.op ≡ op_release_session
    → lookup cmd.client_id s.sessions ≡ some cmd.node_id
    → let t = (apply now cmd s).0 in
      (lookup c t.sessions ≡ (if str_eq cmd.client_id c then none else lookup c s.sessions))
      × (lookup c t.session_identity
          ≡ (if str_eq cmd.client_id c then none else lookup c s.session_identity))
unfolding release_session
release_session_owner now cmd s c h e = rw (apply_release now cmd s h) (
  ground (arith, str_eq_iff cmd.node_id cmd.node_id, lookup-delete cmd.client_id c s.sessions),
  ground
      (arith, str_eq_iff cmd.node_id cmd.node_id, lookup-delete cmd.client_id c s.session_identity),
)

-- A command that can take the client's session from the node: any claim of it, and a release in
-- the node's own name.
abbrev pub disturbs : Str → Str → Command → Bool
disturbs c node cmd =
    str_eq cmd.client_id c
    && (str_eq cmd.op op_claim_session
        || (str_eq cmd.op op_release_session && str_eq cmd.node_id node))

abbrev pub disturbs_entry : Str → Str → Option Command → Bool
disturbs_entry c node none = false
disturbs_entry c node (some cmd) = disturbs c node cmd

Step-owner :
    {now : ℕ} {cmd : Command} {s : State} {o : Str} {r : State × ApplyResult} (c node : Str)
    → Step now cmd s o r
    → o ≡ cmd.op
    → disturbs c node cmd ≡ false
    → lookup c s.sessions ≡ some node
    → lookup c (r.0).sessions ≡ some node
unfolding claim_session release_session
Step-owner {cmd} {s} c node (claims h) e d own = ground (
  arith,
  lookup-insert cmd.client_id c cmd.node_id s.sessions,
  str_eq_iff cmd.op op_claim_session,
)
Step-owner {cmd} {s} c node (releases h) e d own = ground (
  arith,
  lookup-delete cmd.client_id c s.sessions,
  str_eq_iff cmd.op op_release_session,
  str_eq_iff cmd.client_id c,
  str_eq_iff cmd.node_id node,
  str_eq_iff node cmd.node_id,
)
Step-owner c node (creates_role h) e d own = own
Step-owner c node (deletes_role h) e d own = unfold delete_role in own
Step-owner {cmd} {s} c node (creates_binding h) e d own = unfold create_binding in ground arith
Step-owner c node (deletes_binding h) e d own = unfold delete_binding in own
Step-owner c node (enables h) e d own = own
Step-owner c node (disables h) e d own = own
Step-owner c node (sets_primary h) e d own = own
Step-owner c node (revokes h) e d own = own
Step-owner c node rejects e d own = own

apply-owner :
    (now : ℕ) (cmd : Command) (s : State) (c node : Str)
    → disturbs c node cmd ≡ false
    → lookup c s.sessions ≡ some node
    → lookup c (apply now cmd s).0.sessions ≡ some node
apply-owner now cmd s c node d own = Step-owner c node (apply-Step now cmd s) refl d own

-- Once a node owns a session it keeps it through any log in which nobody claims that session and
-- the node itself does not release it: a late release by an evicted node is harmless.
pub replay-owner :
    (log : List (ℕ × Option Command)) (s : State) (c node : Str)
    → All (λ entry. disturbs_entry c node entry.1 ≡ false) log
    → lookup c s.sessions ≡ some node
    → lookup c (replay log s).sessions ≡ some node
unfolding replay apply_log
replay-owner [] s c node d own = own
replay-owner ((now, none) ∷ log) s c node d own = replay-owner log s c node d.1 own
replay-owner ((now, some cmd) ∷ log) s c node d own =
    replay-owner log (apply now cmd s).0 c node d.1 (apply-owner now cmd s c node d.0 own)

-- Every recorded identity belongs to a session that is owned.
abbrev pub IdentitiesOwned : State → Type 0
IdentitiesOwned s =
    (c : Str)
    → (not (has_some (lookup c s.session_identity)) || has_some (lookup c s.sessions)) ≡ true

claim-IdentitiesOwned :
    (cmd : Command) (s : State) → IdentitiesOwned s → IdentitiesOwned (claim_session cmd s).0
unfolding claim_session
claim-IdentitiesOwned cmd s v c = ground (
  arith,
  v c,
  lookup-insert cmd.client_id c cmd.node_id s.sessions,
  lookup-insert cmd.client_id c cmd.identity s.session_identity,
  lookup-delete cmd.client_id c s.session_identity,
)

release-IdentitiesOwned :
    (cmd : Command) (s : State) → IdentitiesOwned s → IdentitiesOwned (release_session cmd s)
unfolding release_session
release-IdentitiesOwned cmd s v c = ground (
  arith,
  v c,
  lookup-delete cmd.client_id c s.sessions,
  lookup-delete cmd.client_id c s.session_identity,
)

Step-IdentitiesOwned :
    {now : ℕ} {cmd : Command} {s : State} {o : Str} {r : State × ApplyResult}
    → Step now cmd s o r
    → IdentitiesOwned s
    → IdentitiesOwned (r.0)
Step-IdentitiesOwned {cmd} {s} (claims h) v = claim-IdentitiesOwned cmd s v
Step-IdentitiesOwned {cmd} {s} (releases h) v = release-IdentitiesOwned cmd s v
Step-IdentitiesOwned (creates_role h) v = v
Step-IdentitiesOwned (deletes_role h) v = unfold delete_role in v
Step-IdentitiesOwned (creates_binding h) v = λ c. unfold create_binding in ground (arith, v c)
Step-IdentitiesOwned (deletes_binding h) v = unfold delete_binding in v
Step-IdentitiesOwned (enables h) v = v
Step-IdentitiesOwned (disables h) v = v
Step-IdentitiesOwned (sets_primary h) v = v
Step-IdentitiesOwned (revokes h) v = v
Step-IdentitiesOwned rejects v = v

-- Through every log, from a state of which this holds, an identity is recorded only for a client
-- that has an owner: what a revocation finds by identity is a live session.
pub replay-IdentitiesOwned :
    (log : List (ℕ × Option Command)) (s : State)
    → IdentitiesOwned s
    → IdentitiesOwned (replay log s)
unfolding replay
replay-IdentitiesOwned [] s v = v
replay-IdentitiesOwned ((now, entry) ∷ log) s v =
    replay-IdentitiesOwned log (apply_log now entry s).0 (
      keeps-apply_log IdentitiesOwned now entry s
        (λ cmd. Step-IdentitiesOwned (apply-Step now cmd s) v) v)
