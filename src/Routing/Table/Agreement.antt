-- ===== src/Routing/Table/Agreement.antt =====
-- router.go: the table that follows the events, the keys of the store, and the table that a
-- reconciliation rebuilds from them say the same.
use keel_mqtt_gateway.Prelude.{
  ◌≡◌, refl, sym, ◌∙◌, ap, subst, inl, inr, true, not, ◌&&◌, ◌||◌, Option, none, some, List, [],
  ◌∷◌, Str, str_eq, str_eq_iff, lookup, All, is_nil, Bool-cases, if◌then◌else◌, arith,
}
use keel_mqtt_gateway.Routing.Keys.{key_sep, route_key, parse_route_key}
use keel_mqtt_gateway.Routing.Keys.Roundtrip.{IsFree, route_key_iff}
use keel_mqtt_gateway.Routing.Table.{
  member, Table, topics_for_node, remove_all, RouteEvent, apply_event, Written, delete_keys,
  keys_for, event_unsubscribe_batch, event_purge_node, subscribe, unsubscribe, remove_topics,
  unsubscribe_batch, purge_node, add_parsed, rebuild,
}
use keel_mqtt_gateway.Routing.Table.Members.{
  has, member-set_add, has-add_local, has-remove_local, has-remove_all,
}

-- Keys are the same exactly when their topics and nodes are.
pub str_eq-route_key :
    (t n t' n' : Str)
    → IsFree key_sep n
    → IsFree key_sep n'
    → str_eq (route_key t' n') (route_key t n) ≡ (str_eq t' t && str_eq n' n)
str_eq-route_key t n t' n' h h' = ground (arith, str_eq_iff t' t, str_eq_iff n' n, same, apart)
  where
    same : t' ≡ t → n' ≡ n → str_eq (route_key t' n') (route_key t n) ≡ true
    same e f = (str_eq_iff (route_key t' n') (route_key t n)).1 (λ i. route_key (e i) (f i))

    apart : str_eq (route_key t' n') (route_key t n) ≡ true → (t' ≡ t) × (n' ≡ n)
    apart e =
        let k = (str_eq_iff (route_key t' n') (route_key t n)).0 e in
        let p = (route_key_iff (route_key t' n') t n h).1 k in
        let p' = (route_key_iff (route_key t' n') t' n' h').1 refl in ground (arith, sym p' ∙ p)

-- The table and the store say the same of every node whose ID holds no NUL.
abbrev pub Agrees : Table → List Str → Type 0
Agrees m keys = (t n : Str) → IsFree key_sep n → has t n m ≡ member (route_key t n) keys

member-delete_keys :
    (k : Str) (gone keys : List Str)
    → member k (delete_keys gone keys) ≡ (not (member k gone) && member k keys)
member-delete_keys k gone [] = ground arith
member-delete_keys k gone (x ∷ keys) = elim (Bool-cases (str_eq x k)) [
  | inl e ↦
      ground (arith, member-delete_keys k gone keys, ap (λ y. member y gone) ((str_eq_iff x k).0 e))
  | inr e ↦ ground (arith, member-delete_keys k gone keys)
]

member-keys_for :
    (t n : Str) (topics : List Str) (n' : Str)
    → IsFree key_sep n
    → IsFree key_sep n'
    → member (route_key t n) (keys_for topics n') ≡ (member t topics && str_eq n' n)
member-keys_for t n [] n' h h' = refl
member-keys_for t n (t' ∷ topics) n' h h' =
    ground (arith, member-keys_for t n topics n' h h', str_eq-route_key t n t' n' h h')

has-add_parsed :
    (k : Str) (o : Option (Str × Str)) (m : Table) (t n : Str)
    → IsFree key_sep n
    → parse_route_key k ≡ o
    → has t n (add_parsed o m) ≡ (str_eq k (route_key t n) || has t n m)
unfolding add_parsed
has-add_parsed k none m t n h e = elim (Bool-cases (str_eq k (route_key t n))) [
  | inl q ↦
      let p = (route_key_iff k t n h).1 ((str_eq_iff k (route_key t n)).0 q) in
      ground (arith, sym e ∙ p)
  | inr q ↦ ground arith
]
has-add_parsed k (some (t', n')) m t n h e =
    ground (arith, has-add_local t n t' n' m, str_eq_iff t' t, str_eq_iff n' n, same, apart)
  where
    same : t' ≡ t → n' ≡ n → str_eq k (route_key t n) ≡ true
    same p q =
        (str_eq_iff k (route_key t n)).1 ((route_key_iff k t n h).0 (e ∙ (λ i. some (p i, q i))))

    apart : str_eq k (route_key t n) ≡ true → (t' ≡ t) × (n' ≡ n)
    apart q =
        let p = (route_key_iff k t n h).1 ((str_eq_iff k (route_key t n)).0 q) in
        ground (arith, sym e ∙ p)

rebuild-has :
    (keys : List Str) (m : Table) (t n : Str)
    → IsFree key_sep n
    → has t n (rebuild keys m) ≡ (has t n m || member (route_key t n) keys)
unfolding rebuild
rebuild-has [] m t n h = ground arith
rebuild-has (k ∷ keys) m t n h = ground (
  arith,
  rebuild-has keys (add_parsed (parse_route_key k) m) t n h,
  has-add_parsed k (parse_route_key k) m t n h refl,
)

-- A reconciliation that rebuilds the table from the store makes the two agree about every node
-- whose ID holds no NUL, whatever keys are in the store.
pub rebuild-Agrees : (keys : List Str) → Agrees (rebuild keys []) keys
unfolding has
rebuild-Agrees keys t n h = unfold lookup in rebuild-has keys [] t n h

-- What a client of the router does.
pub data Write : Type 0 where
  subscribes unsubscribes : Str → Str → Write
  unsubscribes_batch : List Str → Str → Write
  purges : Str → Write

abbrev pub writer : Write → Str
writer (subscribes t n) = n
writer (unsubscribes t n) = n
writer (unsubscribes_batch ts n) = n
writer (purges n) = n

-- The write, where the store and the channel take it.
pub written : Write → Table → List Str → Written
written (subscribes t n) m keys = subscribe true true m keys t n
written (unsubscribes t n) m keys = unsubscribe true true m keys t n
written (unsubscribes_batch ts n) m keys = unsubscribe_batch true true m keys ts n
written (purges n) m keys = purge_node true true m keys n

-- The table after the event of a write has come in.
abbrev pub follow : Option RouteEvent → Table → Table
unfolding apply_event
follow none m = m
follow (some ev) m = apply_event ev m

subscribe-Agrees :
    (t' n' : Str) (m : Table) (keys : List Str)
    → IsFree key_sep n'
    → Agrees m keys
    → Agrees
        (follow (subscribe true true m keys t' n').event m)
        (subscribe true true m keys t' n').keys
unfolding subscribe follow apply_event str_eq
subscribe-Agrees t' n' m keys h' a t n h = ground (
  arith,
  a t n h,
  has-add_local t n t' n' m,
  member-set_add (route_key t' n') (route_key t n) keys,
  str_eq-route_key t n t' n' h h',
)

unsubscribe-Agrees :
    (t' n' : Str) (m : Table) (keys : List Str)
    → IsFree key_sep n'
    → Agrees m keys
    → Agrees
        (follow (unsubscribe true true m keys t' n').event m)
        (unsubscribe true true m keys t' n').keys
unfolding unsubscribe follow apply_event str_eq
unsubscribe-Agrees t' n' m keys h' a t n h = ground (
  arith,
  a t n h,
  has-remove_local t n t' n' m,
  member-delete_keys (route_key t n) (route_key t' n' ∷ []) keys,
  str_eq-route_key t n t' n' h h',
)

removed-Agrees :
    (topics : List Str) (n' : Str) (m : Table) (keys : List Str)
    → IsFree key_sep n'
    → Agrees m keys
    → Agrees (remove_all topics n' m) (delete_keys (keys_for topics n') keys)
removed-Agrees topics n' m keys h' a t n h = ground (
  arith,
  a t n h,
  has-remove_all t n topics n' m,
  member-delete_keys (route_key t n) (keys_for topics n') keys,
  member-keys_for t n topics n' h h',
)

batch-Agrees :
    (chosen : List Str) (n' : Str) (m : Table) (keys : List Str)
    → IsFree key_sep n'
    → Agrees m keys
    → let w = remove_topics true true m keys event_unsubscribe_batch chosen chosen n' in
      Agrees (follow w.event m) w.keys
unfolding follow apply_event str_eq remove_topics
batch-Agrees [] n' m keys h' a = a
batch-Agrees (t ∷ topics) n' m keys h' a = removed-Agrees (t ∷ topics) n' m keys h' a

purge-Agrees :
    (chosen : List Str) (n' : Str) (m : Table) (keys : List Str)
    → topics_for_node n' m ≡ chosen
    → IsFree key_sep n'
    → Agrees m keys
    → let w = remove_topics true true m keys event_purge_node chosen [] n' in
      Agrees (follow w.event m) w.keys
unfolding follow apply_event str_eq remove_topics
purge-Agrees [] n' m keys e h' a = a
purge-Agrees (t ∷ topics) n' m keys e h' a =
    subst (λ ts. Agrees (remove_all ts n' m) (delete_keys (keys_for (t ∷ topics) n') keys)) (sym e)
      (removed-Agrees (t ∷ topics) n' m keys h' a)

written-Agrees :
    (w : Write) (m : Table) (keys : List Str)
    → IsFree key_sep (writer w)
    → Agrees m keys
    → Agrees (follow (written w m keys).event m) (written w m keys).keys
unfolding written
written-Agrees (subscribes t n) m keys h a = subscribe-Agrees t n m keys h a
written-Agrees (unsubscribes t n) m keys h a = unsubscribe-Agrees t n m keys h a
written-Agrees (unsubscribes_batch ts n) m keys h a =
    unfold unsubscribe_batch in
    batch-Agrees (if is_nil ts then topics_for_node n m else ts) n m keys h a
written-Agrees (purges n) m keys h a =
    unfold purge_node in purge-Agrees (topics_for_node n m) n m keys refl h a

-- Writes one after another, each followed by its event.
pub run : List Write → Table × List Str → Table × List Str
unfolding written
run [] state = state
run (w ∷ ws) (m, keys) = run ws (follow (written w m keys).event m, (written w m keys).keys)

-- Through any writes by nodes whose IDs hold no NUL, each taken by the store and the channel and
-- followed by its event, the table goes on saying of every such node what the store's keys say, and
-- says what a reconciliation would rebuild from them.
pub run-Agrees :
    (ws : List Write) (m : Table) (keys : List Str)
    → All (λ w. IsFree key_sep (writer w)) ws
    → Agrees m keys
    → let (m', keys') = run ws (m, keys) in
      Agrees m' keys' × ((t n : Str) → IsFree key_sep n → has t n m' ≡ has t n (rebuild keys' []))
unfolding run
run-Agrees [] m keys h a = (a, (λ t n f. a t n f ∙ sym (rebuild-Agrees keys t n f)))
run-Agrees (w ∷ ws) m keys h a =
    run-Agrees ws (follow (written w m keys).event m) (written w m keys).keys h.1
      (written-Agrees w m keys h.0 a)
