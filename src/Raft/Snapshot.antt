-- ===== src/Raft/Snapshot.antt =====
-- internal/cluster/raft/fsm.go: Snapshot, Persist and Restore. The JSON encoder and decoder are a
-- parameter; what they do with a field that is tagged omitempty is part of it.
use keel_mqtt_gateway.Prelude.{
  ℕ, ◌≡◌, ap, refl, Bool, Option, none, some, List, [], ◌∷◌, Str, Dict, is_nil, if◌then◌else◌,
}
use keel_mqtt_gateway.Acl.Model.{Role}
use keel_mqtt_gateway.Raft.Fsm.{State}

-- snapshot: what Persist writes.
pub record Snapshot : Type 0 where
  pub sessions : Dict Str
  pub session_identity : Dict Str
  pub roles : Dict Role
  pub bindings : Dict (List Str)
  pub enabled_rulesets : Dict Bool
  pub redis_primary : Str
  pub revoked : Dict ℕ

-- The same struct after decoding: `none` is the nil map of a field that the text does not have.
-- Persist always writes the sessions, which Restore takes over without a test for nil.
pub record Decoded : Type 0 where
  pub sessions : Dict Str
  pub session_identity : Option (Dict Str)
  pub roles : Option (Dict Role)
  pub bindings : Option (Dict (List Str))
  pub enabled_rulesets : Option (Dict Bool)
  pub redis_primary : Str
  pub revoked : Option (Dict ℕ)

-- Snapshot: copies of the maps.
unfoldable pub snapshot : State → Snapshot
snapshot s = record {
  sessions = s.sessions;
  session_identity = s.session_identity;
  roles = s.roles;
  bindings = s.bindings;
  enabled_rulesets = s.enabled_rulesets;
  redis_primary = s.redis_primary;
  revoked = s.revoked;
}

abbrev omit_empty {ℓ} : {V : Type ℓ} → Dict V → Option (Dict V)
omit_empty m = if is_nil m then none else some m

-- What the tags of the struct make of a snapshot on its way through JSON: an empty map is omitted
-- where the tag says so.
abbrev pub through_json : Snapshot → Decoded
through_json s = record {
  sessions = s.sessions;
  session_identity = omit_empty s.session_identity;
  roles = some s.roles;
  bindings = some s.bindings;
  enabled_rulesets = some s.enabled_rulesets;
  redis_primary = s.redis_primary;
  revoked = omit_empty s.revoked;
}

-- encoding/json on this struct: decoding reads back what was encoded.
pub record Json : Type 1 where
  pub Blob : Type 0
  pub encode : Snapshot → Blob
  pub decode : Blob → Option Decoded
  pub decode-encode : (s : Snapshot) → decode (encode s) ≡ some (through_json s)

abbrev or_empty {ℓ} : {V : Type ℓ} → Option (Dict V) → Dict V
or_empty none = []
or_empty (some m) = m

-- The assignments of Restore.
unfoldable pub restored : Decoded → State
restored d = record {
  sessions = d.sessions;
  session_identity = or_empty d.session_identity;
  roles = or_empty d.roles;
  bindings = or_empty d.bindings;
  enabled_rulesets = or_empty d.enabled_rulesets;
  redis_primary = d.redis_primary;
  revoked = or_empty d.revoked;
}

or_empty-omit_empty {ℓ} : {V : Type ℓ} (m : Dict V) → or_empty (omit_empty m) ≡ m
or_empty-omit_empty [] = refl
or_empty-omit_empty (e ∷ m) = refl

restored-snapshot : (s : State) → restored (through_json (snapshot s)) ≡ s
unfolding restored snapshot
restored-snapshot s = λ i. record {
  sessions = s.sessions;
  session_identity = or_empty-omit_empty s.session_identity i;
  roles = s.roles;
  bindings = s.bindings;
  enabled_rulesets = s.enabled_rulesets;
  redis_primary = s.redis_primary;
  revoked = or_empty-omit_empty s.revoked i;
}

module _ (json : Json) where
  open json use {Blob, encode, decode, decode-encode}

  -- Persist: the text that goes to the sink.
  unfoldable pub persist : Snapshot → Blob
  persist s = encode s

  -- Restore: the new state, or the old one and an error where the text does not decode.
  unfoldable pub restore : Blob → State → State × Bool
  unfolding restored
  restore blob s = elim (decode blob) [ none ↦ (s, Bool.false) | some d ↦ (restored d, Bool.true) ]

  -- A replica that restores another's snapshot is in the other's state, whatever state it was in.
  pub restore-snapshot : (s t : State) → restore (persist (snapshot s)) t ≡ (s, Bool.true)
  unfolding restore persist
  restore-snapshot s t =
      rw (decode-encode (snapshot s), restore) (ap (λ u. (u, Bool.true)) (restored-snapshot s))
