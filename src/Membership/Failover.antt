-- ===== src/Membership/Failover.antt =====
-- internal/cluster/membership/redis_failover.go: one tick of the failover loop. What the code asks
-- of raft and Redis is a list of calls, the latest first; an environment answers each call from the
-- calls so far. Members come from gossip, and the clock and the voters from outside.
pub mod Promotion
use keel_mqtt_gateway.Prelude.{
  ℕ, ◌-◌, Bool, true, false, not, ◌||◌, Option, none, some, List, [], ◌∷◌, Str, Dict, str_eq,
  str_lt, lookup, insert, delete, is_nil, leb, if◌then◌else◌,
}

-- NodeMeta: the fields that the failover reads, of a core with a Redis address.
pub record NodeMeta : Type 0 where
  pub node_id : Str
  pub redis_addr : Str

pub data Call : Type 0 where
  asks_leader : Call
  pings promotes : Str → Call
  replicates : Str → Str → Call
  designates : Str → Call

abbrev pub Calls : Type 0
Calls = List Call

-- The member with the ID.
unfoldable pub find_member : Str → List NodeMeta → Option NodeMeta
unfolding str_eq
find_member node_id [] = none
find_member node_id (meta ∷ members) =
    if str_eq meta.node_id node_id then some meta else find_member node_id members

insert_node : NodeMeta → List NodeMeta → List NodeMeta
unfolding str_lt
insert_node x [] = x ∷ []
insert_node x (y ∷ ys) = if str_lt y.node_id x.node_id then y ∷ insert_node x ys else x ∷ y ∷ ys

-- sort.Slice by the node's ID, as an insertion sort.
unfoldable pub sort_nodes : List NodeMeta → List NodeMeta
unfolding insert_node
sort_nodes [] = []
sort_nodes (x ∷ xs) = insert_node x (sort_nodes xs)

-- How the search for a replica to promote ends.
pub data Search : Type 0 where
  none_found stopped : Search
  promoted : NodeMeta → Search

module _ (env : Calls → Bool) (valid_addr : Str → Bool) where
  -- A call and its answer.
  abbrev pub ask : Call → Calls → Calls × Bool
  ask c h = (c ∷ h, env (c ∷ h))

  -- The loop of ensureReplicasConfigured.
  unfoldable pub replica_loop : Str → Str → List NodeMeta → Calls → Calls
  unfolding str_eq
  replica_loop primary addr [] h = h
  replica_loop primary addr (meta ∷ members) h =
      let (h₁, leader) = ask asks_leader h in
      let next = replica_loop primary addr members h in
      let onward = replica_loop primary addr members (replicates meta.redis_addr addr ∷ h₁) in
      if str_eq meta.node_id primary then next else if not leader then h₁ else onward

  abbrev pub with_primary : Option NodeMeta → Str → List NodeMeta → Calls → Calls
  unfolding replica_loop
  with_primary none primary members h = h
  with_primary (some meta) primary members h =
      if is_nil meta.redis_addr || not (valid_addr meta.redis_addr)
      then h
      else replica_loop primary meta.redis_addr members h

  -- ensureReplicasConfigured.
  unfoldable pub ensure_replicas_configured : List NodeMeta → Str → Calls → Calls
  unfolding with_primary find_member
  ensure_replicas_configured members primary h =
      with_primary (find_member primary members) primary members h

  -- The loop of failoverRedisPrimary.
  unfoldable pub search : Str → List NodeMeta → Calls → Calls × Search
  unfolding str_eq
  search dead [] h = (h, none_found)
  search dead (meta ∷ members) h =
      let (h₁, alive) = ask (pings meta.redis_addr) h in
      let (h₂, leader) = ask asks_leader h₁ in
      let (h₃, done) = ask (promotes meta.redis_addr) h₂ in
      let skipped = search dead members h in
      let unavailable = search dead members h₁ in
      if str_eq meta.node_id dead
      then skipped
      else if not alive
      then unavailable
      else if not leader
      then (h₂, stopped)
      else if not done
      then (h₃, stopped)
      else (h₃, promoted meta)

  abbrev pub designate : List NodeMeta → Str → Dict ℕ → Calls × Search → Calls × Dict ℕ
  unfolding ensure_replicas_configured delete
  designate members dead missing (h, none_found) = (h, missing)
  designate members dead missing (h, stopped) = (h, missing)
  designate members dead missing (h, promoted meta) =
      let (h₁, done) = ask (designates meta.node_id) h in
      if not done
      then (h₁, missing)
      else (ensure_replicas_configured members meta.node_id h₁, delete dead missing)

  -- failoverRedisPrimary: the calls and redisMissingSince.
  unfoldable pub failover_redis_primary : List NodeMeta → Str → Dict ℕ → Calls → Calls × Dict ℕ
  unfolding designate search sort_nodes
  failover_redis_primary members dead missing h =
      let sorted = sort_nodes members in designate sorted dead missing (search dead sorted h)

  abbrev pub candidate_of : Option NodeMeta → NodeMeta → NodeMeta
  candidate_of none first = first
  candidate_of (some meta) first = meta

  -- bootstrapRedisPrimary.
  unfoldable pub bootstrap_redis_primary : Str → List NodeMeta → ℕ → Calls → Calls
  unfolding find_member ensure_replicas_configured
  bootstrap_redis_primary self [] voters h = h
  bootstrap_redis_primary self (first ∷ members) voters h =
      let candidate = candidate_of (find_member self (first ∷ members)) first in
      let (h₁, done) = ask (designates candidate.node_id) h in
      if not done
      then h₁
      else if not (leb voters 1)
      then ensure_replicas_configured (first ∷ members) candidate.node_id h₁
      else promotes candidate.redis_addr ∷ h₁

  -- The ping of the primary; a primary that gossip does not know is unhealthy.
  abbrev pub check_primary : Option NodeMeta → Calls → Calls × Bool
  check_primary none h = (h, false)
  check_primary (some meta) h = ask (pings meta.redis_addr) h

  module _ (self : Str) (threshold now : ℕ) (members : List NodeMeta) where
    -- The cases after the second look at the leadership.
    abbrev pub on_missing : Str → Option ℕ → Dict ℕ → Calls → Calls × Dict ℕ
    unfolding failover_redis_primary insert
    on_missing primary none missing h = (h, insert primary now missing)
    on_missing primary (some since) missing h =
        if leb (now - since) threshold
        then (h, missing)
        else failover_redis_primary members primary missing h

    -- The tick on a leader with the primary known and more than one voter.
    unfoldable pub watch_primary : Str → Dict ℕ → Calls → Calls × Dict ℕ
    unfolding on_missing ensure_replicas_configured find_member lookup delete
    watch_primary primary missing h =
        let (h₁, healthy) = check_primary (find_member primary members) h in
        let (h₂, leader) = ask asks_leader h₁ in
        if not leader
        then (h₂, missing)
        else if healthy
        then (ensure_replicas_configured members primary h₂, delete primary missing)
        else on_missing primary (lookup primary missing) missing h₂

    abbrev pub on_primary : Option Str → ℕ → Dict ℕ → Calls → Calls × Dict ℕ
    unfolding watch_primary bootstrap_redis_primary
    on_primary none voters missing h = (bootstrap_redis_primary self members voters h, missing)
    on_primary (some primary) voters missing h =
        if leb voters 1 then (h, missing) else watch_primary primary missing h

    abbrev pub on_voters : Option ℕ → Option Str → Dict ℕ → Calls → Calls × Dict ℕ
    unfolding on_primary
    on_voters none primary missing h = (h, missing)
    on_voters (some voters) primary missing h = on_primary primary voters missing h

    -- reconcileRedisPrimary; `none` voters are an error of GetConfiguration.
    unfoldable pub reconcile_redis_primary : Option ℕ → Option Str → Dict ℕ → Calls → Calls × Dict ℕ
    unfolding on_voters
    reconcile_redis_primary voters primary missing h =
        let (h₁, leader) = ask asks_leader h in
        if not leader then (h₁, []) else on_voters voters primary missing h₁
