-- ===== src/Broker/Retained.antt =====
-- internal/broker/retained.go: the retained messages of the cluster, kept in Redis. A transaction
-- that does not reach Redis changes nothing; whether it does is an input. Both reads of Match reach
-- it.
pub mod History
use keel_mqtt_gateway.Prelude.{
  ℕ, ◌==◌, ◌≡◌, Bool, true, false, not, ◌&&◌, ◌||◌, Option, none, some, List, [], ◌∷◌, ◌++◌, Str,
  codes, str_eq, any, keep, has_some, is_nil, if◌then◌else◌,
}
use keel_mqtt_gateway.Acl.Topic.{match_topic}
use keel_mqtt_gateway.Routing.Table.{member}

abbrev pub listed : Str → Option (List Str) → Bool
listed x none = false
listed x (some members) = member x members

-- Redis: the commands that are sent, on a state W, with whether one succeeded where it may not.
-- SET writes over a value of any type; SADD, SREM and SMEMBERS fail on a key that holds a string; a
-- missing key is an empty set.
pub record Redis : Type 1 where
  pub W : Type 0
  pub set : Str → Str → W → W
  pub del : Str → W → W
  pub sadd : Str → Str → W → W × Bool
  pub srem : Str → Str → W → W × Bool
  -- one element of what MGET answers
  pub get : Str → W → Option Str
  pub smembers : Str → W → Option (List Str)
  pub get-set :
      (j v : Str) (w : W) (k : Str) → get k (set j v w) ≡ (if str_eq j k then some v else get k w)
  pub smembers-set :
      (j v : Str) (w : W) (k : Str)
      → smembers k (set j v w) ≡ (if str_eq j k then none else smembers k w)
  pub get-del :
      (j : Str) (w : W) (k : Str) → get k (del j w) ≡ (if str_eq j k then none else get k w)
  pub smembers-del :
      (j : Str) (w : W) (k : Str) → str_eq j k ≡ false → smembers k (del j w) ≡ smembers k w
  pub get-sadd : (j x : Str) (w : W) (k : Str) → get k (sadd j x w).0 ≡ get k w
  pub get-srem : (j x : Str) (w : W) (k : Str) → get k (srem j x w).0 ≡ get k w
  pub readable-sadd :
      (j x : Str) (w : W) → has_some (smembers j (sadd j x w).0) ≡ has_some (smembers j w)
  pub readable-srem :
      (j x : Str) (w : W) → has_some (smembers j (srem j x w).0) ≡ has_some (smembers j w)
  pub listed-sadd :
      (j x : Str) (w : W) (y : Str)
      → has_some (smembers j w) ≡ true
      → listed y (smembers j (sadd j x w).0) ≡ (str_eq x y || listed y (smembers j w))
  pub listed-srem :
      (j x : Str) (w : W) (y : Str)
      → listed y (smembers j (srem j x w).0) ≡ (not (str_eq x y) && listed y (smembers j w))

abbrev pub retained_key_prefix : Str
retained_key_prefix = codes "keel:retained:"

abbrev pub retained_index_key : Str
retained_index_key = codes "keel:retained:index"

-- retainedKey.
abbrev pub retained_key : Str → Str
retained_key topic = retained_key_prefix ++ topic

-- containsWildcard.
unfoldable pub contains_wildcard : Str → Bool
contains_wildcard filter = any (λ r. (r == 43) || (r == 35)) filter

-- The first part of Match: the topics to read, `none` for an error.
unfoldable pub topics_to_read : Str → List Str → Option (List Str) → Option (List Str)
unfolding contains_wildcard match_topic
topics_to_read filter exclude members =
    let indexed : Option (List Str) = elim members [
      | none ↦ none
      | some topics ↦ some (keep (λ t. not (member t exclude) && match_topic filter t) topics)
    ] in
    if not (contains_wildcard filter)
    then some (if member filter exclude then [] else filter ∷ [])
    else indexed

abbrev pub add_message : Str → Option Str → List (Str × Str) → List (Str × Str)
add_message t none messages = messages
add_message t (some payload) messages = (t, payload) ∷ messages

module _ (redis : Redis) where
  open redis use {W, set, del, sadd, srem, get, smembers}

  -- Delete.
  unfoldable pub delete_retained : Bool → Str → W → W × Bool
  delete_retained reached topic w =
      if not reached then (w, false) else srem retained_index_key topic (del (retained_key topic) w)

  -- Set.
  unfoldable pub set_retained : Bool → Str → Str → W → W × Bool
  unfolding delete_retained
  set_retained reached topic payload w =
      if is_nil payload
      then delete_retained reached topic w
      else if not reached
      then (w, false)
      else sadd retained_index_key topic (set (retained_key topic) payload w)

  -- The last part of Match: a topic without a value is passed over.
  unfoldable pub messages_of : List Str → W → List (Str × Str)
  messages_of [] w = []
  messages_of (t ∷ topics) w = add_message t (get (retained_key t) w) (messages_of topics w)

  abbrev pub read_all : Option (List Str) → W → Option (List (Str × Str))
  unfolding messages_of
  read_all none w = none
  read_all (some topics) w = some (messages_of topics w)

  -- Match: the index is read in the first state and the values in the second.
  unfoldable pub match_retained : Str → List Str → W → W → Option (List (Str × Str))
  unfolding topics_to_read read_all
  match_retained filter exclude w w' =
      read_all (topics_to_read filter exclude (smembers retained_index_key w)) w'
