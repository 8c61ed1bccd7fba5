-- ===== src/Membership/Failover/Promotion.antt =====
-- redis_failover.go: which replica is promoted, and when none is.
use mathlib.Core.List.{Mem, mem-cons_self, mem-cons_of_mem}
use mathlib.Core.Bool.{false≢true}
use keel_mqtt_gateway.Prelude.{
  ℕ, suc, ◌-◌, ◌≤◌, ◌≡◌, refl, sym, ◌∙◌, subst, Bool, true, false, not, ◌||◌, Option, none, some,
  List, [], ◌∷◌, Str, Dict, str_eq, lookup, is_nil, leb, if_cases, arith,
}
use keel_mqtt_gateway.Membership.Failover.{
  NodeMeta, Call, asks_leader, pings, promotes, replicates, designates, Calls, find_member, Search,
  none_found, stopped, promoted, replica_loop, with_primary, ensure_replicas_configured, search,
  check_primary, on_missing, watch_primary, on_voters, reconcile_redis_primary,
}

-- The calls that change which Redis is the primary, counted.
abbrev pub count_move : Call → ℕ → ℕ
count_move asks_leader n = n
count_move (pings a) n = n
count_move (promotes a) n = suc n
count_move (replicates a b) n = n
count_move (designates m) n = suc n

abbrev pub moves : Calls → ℕ
moves [] = 0
moves (c ∷ h) = count_move c (moves h)

module _ (env : Calls → Bool) where
  -- The last three calls pinged the member, confirmed the leadership and promoted the member, each
  -- with success; it is one of the members and not the dead primary.
  pub record IsPromotion (dead : Str) (members : List NodeMeta) (h : Calls) (c : NodeMeta)
      : Type 0 where
    pub member : Mem c members
    pub other : str_eq c.node_id dead ≡ false
    pub before : Calls
    pub calls : h ≡ promotes c.redis_addr ∷ asks_leader ∷ pings c.redis_addr ∷ before
    pub alive : env (pings c.redis_addr ∷ before) ≡ true
    pub leader : env (asks_leader ∷ pings c.redis_addr ∷ before) ≡ true
    pub done : env h ≡ true
    pub not_moved : moves before ≡ 0

  module _ (valid_addr : Str → Bool) where
    abbrev Result : Str → List NodeMeta → Calls × Search → Type 0
    Result dead members (h, none_found) = Unit
    Result dead members (h, stopped) = Unit
    Result dead members (h, promoted c) = IsPromotion dead members h c

    later :
        (dead : Str) (x : NodeMeta) (members : List NodeMeta) (t : Calls × Search)
        → Result dead members t
        → Result dead (x ∷ members) t
    later dead x members (h, none_found) r = tt
    later dead x members (h, stopped) r = tt
    later dead x members (h, promoted c) r = record {
      member = mem-cons_of_mem x r.member;
      other = r.other;
      before = r.before;
      calls = r.calls;
      alive = r.alive;
      leader = r.leader;
      done = r.done;
      not_moved = r.not_moved;
    }

    search-Result :
        (dead : Str) (members : List NodeMeta) (h : Calls)
        → moves h ≡ 0
        → Result dead members (search env valid_addr dead members h)
    unfolding search
    search-Result dead [] h z = tt
    search-Result dead (meta ∷ members) h z =
        let p = pings meta.redis_addr ∷ h in
        let l = asks_leader ∷ p in
        let d = promotes meta.redis_addr ∷ l in
        let Goal = λ (t : Calls × Search). Result dead (meta ∷ members) t in
        if_cases Goal (str_eq meta.node_id dead) _ _
          (λ _. later dead meta members _ (search-Result dead members h z))
          λ other.
            if_cases Goal (not (env p)) _ _
              (λ _. later dead meta members _ (search-Result dead members p z))
              λ alive.
                if_cases Goal (not (env l)) _ _ (λ _. tt)
                  λ leader.
                    if_cases Goal (not (env d)) _ _ (λ _. tt)
                      λ done. record {
                        member = mem-cons_self;
                        other = other;
                        before = h;
                        calls = refl;
                        alive = ground arith;
                        leader = ground arith;
                        done = ground arith;
                        not_moved = z;
                      }

    replica_loop-moves :
        (primary addr : Str) (members : List NodeMeta) (h : Calls)
        → moves (replica_loop env valid_addr primary addr members h) ≡ moves h
    unfolding replica_loop
    replica_loop-moves primary addr [] h = refl
    replica_loop-moves primary addr (meta ∷ members) h =
        let h₁ = asks_leader ∷ h in
        let Goal = λ (t : Calls). moves t ≡ moves h in
        if_cases Goal (str_eq meta.node_id primary) _ _
          (λ _. replica_loop-moves primary addr members h)
          λ _.
            if_cases Goal (not (env h₁)) _ _ (λ _. refl)
              λ _. replica_loop-moves primary addr members (replicates meta.redis_addr addr ∷ h₁)

    ensure-moves :
        (members : List NodeMeta) (primary : Str) (h : Calls)
        → moves (ensure_replicas_configured env valid_addr members primary h) ≡ moves h
    unfolding ensure_replicas_configured with_primary
    ensure-moves members primary h = known (find_member primary members)
      where
        known :
            (o : Option NodeMeta)
            → moves (with_primary env valid_addr o primary members h) ≡ moves h
        known none = refl
        known (some meta) =
            if_cases (λ t. moves t ≡ moves h)
              (is_nil meta.redis_addr || not (valid_addr meta.redis_addr)) _ _ (λ _. refl)
              (λ _. replica_loop-moves primary meta.redis_addr members h)

    -- Where the search of a failover ends with a promotion, it promoted one replica and no other: a
    -- member that is not the dead primary, which answered a ping and was promoted without an error,
    -- while this core was still the leader.
    pub search-IsPromotion :
        (dead : Str) (members : List NodeMeta) (h : Calls) (c : NodeMeta)
        → search env valid_addr dead members [] ≡ (h, promoted c)
        → IsPromotion dead members h c
    search-IsPromotion dead members h c e =
        subst (Result dead members) e (search-Result dead members [] refl)

    module _ (self : Str) (threshold now : ℕ) (members : List NodeMeta) where
      on_missing-moves :
          (primary : Str) (o : Option ℕ) (missing : Dict ℕ) (h : Calls)
          → ((since : ℕ) → o ≡ some since → now - since ≤ threshold)
          → moves (on_missing env valid_addr self threshold now members primary o missing h).0
            ≡ moves h
      unfolding on_missing
      on_missing-moves primary none missing h k = refl
      on_missing-moves primary (some since) missing h k =
          let within : leb (now - since) threshold ≡ true = ground (arith, k since refl) in
          if_cases (λ (t : Calls × Dict ℕ). moves t.0 ≡ moves h) (leb (now - since) threshold) _ _
            (λ _. refl) (λ late. absurd (false≢true (sym late ∙ within)))

      check-moves :
          (o : Option NodeMeta) (h : Calls) → moves (check_primary env valid_addr o h).0 ≡ moves h
      check-moves none h = refl
      check-moves (some meta) h = refl

      watch_primary-moves :
          (primary : Str) (missing : Dict ℕ) (h : Calls)
          → ((since : ℕ) → lookup primary missing ≡ some since → now - since ≤ threshold)
          → moves (watch_primary env valid_addr self threshold now members primary missing h).0
            ≡ moves h
      unfolding watch_primary
      watch_primary-moves primary missing h k =
          let r = check_primary env valid_addr (find_member primary members) h in
          let h₂ = asks_leader ∷ r.0 in
          let start = check-moves (find_member primary members) h in
          let Goal = λ (t : Calls × Dict ℕ). moves t.0 ≡ moves h in
          if_cases Goal (not (env h₂)) _ _ (λ _. start)
            λ _.
              if_cases Goal r.1 _ _ (λ _. ensure-moves members primary h₂ ∙ start)
                λ _. on_missing-moves primary (lookup primary missing) missing h₂ k ∙ start

      -- A tick with a known primary promotes and designates nothing where the primary is not
      -- tracked as missing, or has been for no longer than the threshold, whatever raft and Redis
      -- answer.
      pub reconcile_redis_primary-moves :
          (voters : Option ℕ) (primary : Str) (missing : Dict ℕ) (h : Calls)
          → ((since : ℕ) → lookup primary missing ≡ some since → now - since ≤ threshold)
          → moves
              (reconcile_redis_primary env valid_addr self threshold now members voters
                (some primary)
                missing
                h).0
            ≡ moves h
      unfolding reconcile_redis_primary
      reconcile_redis_primary-moves voters primary missing h k =
          let h₁ = asks_leader ∷ h in
          let Goal = λ (t : Calls × Dict ℕ). moves t.0 ≡ moves h in
          if_cases Goal (not (env h₁)) _ _ (λ _. refl) (λ _. counted voters)
        where
          counted :
              (v : Option ℕ)
              → moves
                  (on_voters env valid_addr self threshold now members v
                    (some primary)
                    missing
                    (asks_leader ∷ h)).0
                ≡ moves h
          counted none = refl
          counted (some v) =
              if_cases (λ (t : Calls × Dict ℕ). moves t.0 ≡ moves h) (leb v 1) _ _ (λ _. refl)
                (λ _. watch_primary-moves primary missing (asks_leader ∷ h) k)
