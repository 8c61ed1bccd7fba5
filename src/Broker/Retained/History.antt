-- ===== src/Broker/Retained/History.antt =====
-- retained.go: what Match answers after any writes, and what the topic "index" does.
use keel_mqtt_gateway.Prelude.{
  ◌≡◌, refl, sym, ◌∙◌, ap, inl, inr, Bool, true, false, not, ◌&&◌, Option, none, some, List, [],
  ◌∷◌, Str, codes, str_eq, str_eq_iff, lookup, keep, has_some, is_nil, if◌then◌else◌, Option-cases,
  Bool-cases, All, arith,
}
use keel_mqtt_gateway.Acl.Topic.{match_topic}
use keel_mqtt_gateway.Routing.Table.{member}
use keel_mqtt_gateway.Broker.Retained.{
  listed, Redis, retained_index_key, retained_key, contains_wildcard, delete_retained, set_retained,
  topics_to_read, add_message, messages_of, read_all, match_retained,
}

-- Which topic a filter without a wildcard reads.
literal_topics :
    (filter t : Str) (exclude : List Str)
    → member t (if member filter exclude then [] else filter ∷ [])
      ≡ (not (member t exclude) && str_eq filter t)
literal_topics filter t exclude =
    let same : str_eq filter t ≡ true → member filter exclude ≡ member t exclude =
      λ h. ap (λ y. member y exclude) ((str_eq_iff filter t).0 h) in
    ground (arith, same)

-- A call of Set: whether it reaches Redis, the topic, and the payload.
abbrev pub Call : Type 0
Call = Bool × Str × Str

abbrev pub index_topic : Str
index_topic = codes "index"

-- What a call leaves stored for a topic.
abbrev pub after_call : Str → Call → Option Str → Option Str
after_call t (reached, topic, payload) known =
    if reached && str_eq topic t then (if is_nil payload then none else some payload) else known

-- What the calls leave stored for a topic.
abbrev pub stored : Str → List Call → Option Str → Option Str
stored t [] known = known
stored t (call ∷ calls) known = stored t calls (after_call t call known)

-- The topics that a filter is about: without a wildcard, the one that it spells.
abbrev pub wanted : Str → Str → Bool
unfolding contains_wildcard
wanted filter t = if contains_wildcard filter then match_topic filter t else str_eq filter t

abbrev pub answer_for : Str → Option (List (Str × Str)) → Option Str
unfolding lookup
answer_for t none = none
answer_for t (some messages) = lookup t messages

key_eq : (t u : Str) → str_eq (retained_key t) (retained_key u) ≡ str_eq t u
unfolding str_eq
key_eq t u = refl

key_index : (t : Str) → str_eq (retained_key t) retained_index_key ≡ str_eq t index_topic
unfolding str_eq
key_index t = refl

member-keep :
    (p : Str → Bool) (t : Str) (xs : List Str) → member t (keep p xs) ≡ (member t xs && p t)
member-keep p t [] = refl
member-keep p t (x ∷ xs) = ground (arith, member-keep p t xs, str_eq_iff x t)

module _ (redis : Redis) where
  open redis use {W, get, set, del, sadd, smembers}

  -- The calls, one after another.
  unfoldable pub run : List Call → W → W
  unfolding set_retained
  run [] w = w
  run ((reached, topic, payload) ∷ calls) w =
      run calls (set_retained redis reached topic payload w).0

  -- The index can be read and holds the topics that have a value.
  pub record IsIndexed (w : W) : Type 0 where
    pub readable : has_some (smembers retained_index_key w) ≡ true
    pub indexed :
        (t : Str) → listed t (smembers retained_index_key w) ≡ has_some (get (retained_key t) w)

  get-set_retained :
      (reached : Bool) (topic payload : Str) (w : W) (t : Str)
      → get (retained_key t) (set_retained redis reached topic payload w).0
        ≡ after_call t (reached, topic, payload) (get (retained_key t) w)
  unfolding set_retained delete_retained
  get-set_retained false topic [] w t = refl
  get-set_retained false topic (x ∷ payload) w t = refl
  get-set_retained true topic [] w t =
      redis.get-srem retained_index_key topic (del (retained_key topic) w) (retained_key t)
      ∙ redis.get-del (retained_key topic) w (retained_key t)
      ∙ rw (key_eq topic t) refl
  get-set_retained true topic (x ∷ payload) w t =
      redis.get-sadd retained_index_key topic (set (retained_key topic) (x ∷ payload) w)
        (retained_key t)
      ∙ redis.get-set (retained_key topic) (x ∷ payload) w (retained_key t)
      ∙ rw (key_eq topic t) refl

  set_retained-IsIndexed :
      (reached : Bool) (topic payload : Str) (w : W)
      → str_eq topic index_topic ≡ false
      → IsIndexed w
      → IsIndexed (set_retained redis reached topic payload w).0
  unfolding set_retained delete_retained
  set_retained-IsIndexed false topic [] w h v = v
  set_retained-IsIndexed false topic (x ∷ payload) w h v = v
  set_retained-IsIndexed true topic [] w h v =
      let w1 = del (retained_key topic) w in
      let kept : smembers retained_index_key w1 ≡ smembers retained_index_key w =
        redis.smembers-del (retained_key topic) w retained_index_key (key_index topic ∙ h) in
      record {
        readable = redis.readable-srem retained_index_key topic w1 ∙ ap has_some kept ∙ v.readable;
        indexed = λ t.
            rw
              (
                redis.listed-srem retained_index_key topic w1 t,
                kept,
                v.indexed t,
                redis.get-srem retained_index_key topic w1 (retained_key t),
                redis.get-del (retained_key topic) w (retained_key t),
                key_eq topic t,
              )
              (ground arith);
      }
  set_retained-IsIndexed true topic (x ∷ payload) w h v =
      let w1 = set (retained_key topic) (x ∷ payload) w in
      let kept : smembers retained_index_key w1 ≡ smembers retained_index_key w =
        redis.smembers-set (retained_key topic) (x ∷ payload) w retained_index_key
        ∙ rw (key_index topic, h) refl in
      let readable : has_some (smembers retained_index_key w1) ≡ true =
        ap has_some kept ∙ v.readable in
      record {
        readable = redis.readable-sadd retained_index_key topic w1 ∙ readable;
        indexed = λ t.
            rw
              (
                redis.listed-sadd retained_index_key topic w1 t readable,
                kept,
                v.indexed t,
                redis.get-sadd retained_index_key topic w1 (retained_key t),
                redis.get-set (retained_key topic) (x ∷ payload) w (retained_key t),
                key_eq topic t,
              )
              (ground arith);
      }

  run-IsIndexed :
      (calls : List Call) (w : W)
      → All (λ call. str_eq call.1 index_topic ≡ false) calls
      → IsIndexed w
      → IsIndexed (run calls w)
  unfolding run
  run-IsIndexed [] w a v = v
  run-IsIndexed ((reached, topic, payload) ∷ calls) w a v =
      run-IsIndexed calls (set_retained redis reached topic payload w).0 a.1
        (set_retained-IsIndexed reached topic payload w a.0 v)

  get-run :
      (calls : List Call) (w : W) (t : Str)
      → get (retained_key t) (run calls w) ≡ stored t calls (get (retained_key t) w)
  unfolding run
  get-run [] w t = refl
  get-run ((reached, topic, payload) ∷ calls) w t =
      get-run calls (set_retained redis reached topic payload w).0 t
      ∙ ap (stored t calls) (get-set_retained reached topic payload w t)

  lookup-add_message :
      (x : Str) (o : Option Str) (messages : List (Str × Str)) (t : Str)
      → lookup t (add_message x o messages)
        ≡ (if str_eq x t && has_some o then o else lookup t messages)
  unfolding lookup
  lookup-add_message x none messages t = ground arith
  lookup-add_message x (some payload) messages t = ground arith

  same_value :
      (x t : Str) (w : W) → str_eq x t ≡ true → get (retained_key x) w ≡ get (retained_key t) w
  same_value x t w h = ap (λ y. get (retained_key y) w) ((str_eq_iff x t).0 h)

  lookup-messages_of :
      (topics : List Str) (w : W) (t : Str)
      → lookup t (messages_of redis topics w)
        ≡ (if member t topics then get (retained_key t) w else none)
  unfolding messages_of lookup
  lookup-messages_of [] w t = refl
  lookup-messages_of (x ∷ topics) w t =
      lookup-add_message x (get (retained_key x) w) (messages_of redis topics w) t
      ∙ ground (arith, lookup-messages_of topics w t, same_value x t w)

  if_has_some :
      (g : Option Str) (b : Bool) → (if has_some g && b then g else none) ≡ (if b then g else none)
  if_has_some none b = ground arith
  if_has_some (some payload) b = refl

  answer-wildcard :
      (filter : Str) (exclude topics : List Str) (w : W) (t : Str)
      → contains_wildcard filter ≡ true
      → member t topics ≡ has_some (get (retained_key t) w)
      → answer_for t (read_all redis (topics_to_read filter exclude (some topics)) w)
        ≡ (if not (member t exclude) && wanted filter t then get (retained_key t) w else none)
  unfolding topics_to_read read_all answer_for wanted
  answer-wildcard filter exclude topics w t h k =
      let p : Str → Bool = λ y. not (member y exclude) && match_topic filter y in
      rw h (
        lookup-messages_of (keep p topics) w t
        ∙ rw (member-keep p t topics, k) (if_has_some (get (retained_key t) w) (p t)))

  answer-literal :
      (filter : Str) (exclude : List Str) (members : Option (List Str)) (w : W) (t : Str)
      → contains_wildcard filter ≡ false
      → answer_for t (read_all redis (topics_to_read filter exclude members) w)
        ≡ (if not (member t exclude) && wanted filter t then get (retained_key t) w else none)
  unfolding topics_to_read read_all answer_for wanted
  answer-literal filter exclude members w t h = rw h (
      lookup-messages_of (if member filter exclude then [] else filter ∷ []) w t
      ∙ ap (λ b. if b then get (retained_key t) w else none) (literal_topics filter t exclude))

  answer_for-match :
      (filter : Str) (exclude : List Str) (w : W) (t : Str)
      → IsIndexed w
      → answer_for t (match_retained redis filter exclude w w)
        ≡ (if not (member t exclude) && wanted filter t then get (retained_key t) w else none)
  unfolding match_retained
  answer_for-match filter exclude w t v = elim (Bool-cases (contains_wildcard filter)) [
    | inl h ↦ elim (Option-cases (smembers retained_index_key w)) [
      | inl e ↦ ground (arith, v.readable)
      | inr (topics, e) ↦
          rw e (answer-wildcard filter exclude topics w t h (sym (ap (listed t) e) ∙ v.indexed t))
    ]
    | inr h ↦ answer-literal filter exclude (smembers retained_index_key w) w t h
  ]

  -- From a store whose index can be read and holds the topics that have a value, after any calls of
  -- Set for topics other than "index", some of which may not reach Redis, Match answers for each
  -- topic that its filter is about and that is not excluded the last payload that reached Redis,
  -- unless that was empty, and for no other topic; Redis does as the laws of the interface say.
  pub match_retained_lem :
      (calls : List Call) (w : W) (filter : Str) (exclude : List Str)
      → All (λ call. str_eq call.1 index_topic ≡ false) calls
      → IsIndexed w
      → (t : Str)
      → answer_for t (match_retained redis filter exclude (run calls w) (run calls w)) ≡ (
          if not (member t exclude) && wanted filter t
          then stored t calls (get (retained_key t) w)
          else none)
  match_retained_lem calls w filter exclude a v t =
      answer_for-match filter exclude (run calls w) t (run-IsIndexed calls w a v)
      ∙ rw (get-run calls w t) refl

  unreadable : (o : Option (List Str)) → has_some o ≡ false → o ≡ none
  unreadable none h = refl
  unreadable (some topics) h = ground arith

  -- Once Set has stored a payload that is not empty under the topic "index", Match answers an error
  -- for every filter with a wildcard, whatever was stored before.
  pub index_is_lost :
      (w w' : W) (filter payload : Str) (exclude : List Str)
      → contains_wildcard filter ≡ true
      → is_nil payload ≡ false
      → match_retained redis filter exclude (set_retained redis true index_topic payload w).0 w'
        ≡ none
  unfolding match_retained topics_to_read set_retained read_all
  index_is_lost w w' filter payload exclude h k =
      let w1 = set (retained_key index_topic) payload w in
      let gone : smembers retained_index_key (sadd retained_index_key index_topic w1).0 ≡ none =
        unreadable (smembers retained_index_key (sadd retained_index_key index_topic w1).0) (
          redis.readable-sadd retained_index_key index_topic w1
          ∙ ap has_some
              (redis.smembers-set (retained_key index_topic) payload w retained_index_key)) in
      rw (h, k, gone) refl
