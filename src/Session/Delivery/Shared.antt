-- ===== src/Session/Delivery/Shared.antt =====
-- delivery.go, selectSharedSessions: one client of each shared group.
use mathlib.Core.List.{Mem, mem-cons_self, mem-cons_of_mem, append-nil, append_assoc}
use keel_mqtt_gateway.Prelude.{
  ◌≡◌, refl, ◌∙◌, sym, ap, subst, ◌&&◌, inl, inr, ◌≢◌, true, false, List, [], ◌∷◌, ◌++◌, Str, Dict,
  str_eq, str_eq_iff, str_lt, str_lt_irrefl, str_lt_asymm, str_lt_trans_not, lookup, insert,
  lookup-insert, All, Bool-cases, if◌then◌else◌, arith,
}
use keel_mqtt_gateway.Session.Offline.{OfflineSubscription, OfflineSession}
use keel_mqtt_gateway.Session.Delivery.{
  takes, matchable, selected_for, is_candidate, candidates_for, add_candidates, all_candidates,
  first_or_empty, insert_sorted, sort_strings, select_first, select_shared_sessions,
}

-- One of the clients, and none of them comes before it in the order of strings.
pub record IsLeast (clients : List Str) (c : Str) : Type 0 where
  pub member : Mem c clients
  pub least : All (λ x. str_lt x c ≡ false) clients

All-trans :
    (x y : Str) (clients : List Str)
    → str_lt y x ≡ false
    → All (λ z. str_lt z y ≡ false) clients
    → All (λ z. str_lt z x ≡ false) clients
All-trans x y [] h a = tt
All-trans x y (z ∷ clients) h a = (str_lt_trans_not z y x a.0 h, All-trans x y clients h a.1)

IsLeast-cons :
    (x y : Str) (clients : List Str)
    → IsLeast clients y
    → IsLeast (x ∷ clients) (if str_lt y x then y else x)
IsLeast-cons x y clients l = elim (Bool-cases (str_lt y x)) [
  | inl h ↦
      rw h (record { member = mem-cons_of_mem x l.member; least = (str_lt_asymm y x h, l.least) })
  | inr h ↦ rw h (record {
    member = mem-cons_self;
    least = (str_lt_irrefl x, All-trans x y clients h l.least);
  })
]

first-insert_sorted :
    (x : Str) (ys : List Str)
    → ys ≢ []
    → first_or_empty (insert_sorted x ys)
      ≡ (if str_lt (first_or_empty ys) x then first_or_empty ys else x)
unfolding insert_sorted
first-insert_sorted x [] h = absurd (h refl)
first-insert_sorted x (y ∷ ys) h = ground arith

sort_strings-ne-nil : (x : Str) (xs : List Str) → sort_strings (x ∷ xs) ≢ []
unfolding sort_strings
sort_strings-ne-nil x xs e = inserted (sort_strings xs) e
  where
    inserted : (ys : List Str) → insert_sorted x ys ≢ []
    inserted [] e = unfold insert_sorted in cc
    inserted (y ∷ ys) e = unfold insert_sorted in ground arith

sort_strings_cons :
    (x : Str) (xs : List Str) → sort_strings (x ∷ xs) ≡ insert_sorted x (sort_strings xs)
unfolding sort_strings
sort_strings_cons x xs = refl

sort_strings-IsLeast :
    (x : Str) (xs : List Str) → IsLeast (x ∷ xs) (first_or_empty (sort_strings (x ∷ xs)))
sort_strings-IsLeast x [] =
    unfold sort_strings insert_sorted in
    record { member = mem-cons_self; least = (str_lt_irrefl x, tt) }
sort_strings-IsLeast x (y ∷ ys) =
    let sorted = sort_strings (y ∷ ys) in
    let first =
      ap first_or_empty (sort_strings_cons x (y ∷ ys))
      ∙ first-insert_sorted x sorted (sort_strings-ne-nil y ys) in
    subst (IsLeast (x ∷ y ∷ ys)) (sym first)
      (IsLeast-cons x (first_or_empty sorted) (y ∷ ys) (sort_strings-IsLeast y ys))

-- The clients of a session list that subscribe to one shared filter that matches, once for each
-- such subscription.
abbrev pub holds : Str → Str → Str → List OfflineSubscription → List Str
holds topic filter client_id [] = []
holds topic filter client_id (sub ∷ subs) =
    if is_candidate topic sub && str_eq sub.filter filter
    then client_id ∷ holds topic filter client_id subs
    else holds topic filter client_id subs

abbrev pub holders : Str → Str → List OfflineSession → List Str
holders topic filter [] = []
holders topic filter (s ∷ owned) =
    holds topic filter s.client_id s.subscriptions ++ holders topic filter owned

add_candidates-holds :
    (topic filter client_id : Str) (subs : List OfflineSubscription) (m : Dict (List Str))
    → candidates_for (lookup filter (add_candidates topic client_id subs m))
      ≡ candidates_for (lookup filter m) ++ holds topic filter client_id subs
unfolding add_candidates
add_candidates-holds topic f c [] m = sym (append-nil _)
add_candidates-holds topic f c (sub ∷ subs) m =
    let old = candidates_for (lookup sub.filter m) in
    let m' = insert sub.filter (old ++ c ∷ []) m in
    elim (Bool-cases (is_candidate topic sub)) [
      | inl e ↦ ground (
        arith,
        add_candidates-holds topic f c subs m',
        lookup-insert sub.filter f (old ++ c ∷ []) m,
        str_eq_iff sub.filter f,
        append_assoc old (c ∷ []) (holds topic f c subs),
      )
      | inr e ↦ ground (arith, add_candidates-holds topic f c subs m)
    ]

all_candidates-holders :
    (topic filter : Str) (owned : List OfflineSession) (m : Dict (List Str))
    → candidates_for (lookup filter (all_candidates topic owned m))
      ≡ candidates_for (lookup filter m) ++ holders topic filter owned
unfolding all_candidates
all_candidates-holders topic f [] m = sym (append-nil _)
all_candidates-holders topic f (s ∷ owned) m =
    let mine = holds topic f s.client_id s.subscriptions in
    all_candidates-holders topic f owned (add_candidates topic s.client_id s.subscriptions m)
    ∙ ap (λ l. l ++ holders topic f owned)
        (add_candidates-holds topic f s.client_id s.subscriptions m)
    ∙ append_assoc (candidates_for (lookup f m)) mine (holders topic f owned)

select_first-lookup :
    (filter : Str) (m : Dict (List Str))
    → selected_for filter (select_first m)
      ≡ first_or_empty (sort_strings (candidates_for (lookup filter m)))
unfolding select_first lookup
select_first-lookup f [] = unfold sort_strings in refl
select_first-lookup f ((g, clients) ∷ m) = ground (arith, select_first-lookup f m)

-- The client selected for a filter that some owned session holds.
selected-IsLeast :
    (topic filter : Str) (owned : List OfflineSession)
    → holders topic filter owned ≢ []
    → IsLeast
        (holders topic filter owned)
        (selected_for filter (select_shared_sessions owned topic))
unfolding select_shared_sessions
selected-IsLeast topic f owned h =
    subst (IsLeast (holders topic f owned)) (sym same) (least (holders topic f owned) h)
  where
    same :
        selected_for f (select_first (all_candidates topic owned []))
        ≡ first_or_empty (sort_strings (holders topic f owned))
    same =
        select_first-lookup f (all_candidates topic owned [])
        ∙ ap (λ l. first_or_empty (sort_strings l)) (all_candidates-holders topic f owned [])

    least : (l : List Str) → l ≢ [] → IsLeast l (first_or_empty (sort_strings l))
    least [] n = absurd (n refl)
    least (x ∷ xs) n = sort_strings-IsLeast x xs

takes-shared :
    (s : OfflineSession) (topic : Str) (selected : Dict Str) (sub : OfflineSubscription)
    → is_candidate topic sub ≡ true
    → takes s topic selected sub ≡ str_eq (selected_for sub.filter selected) s.client_id
unfolding takes is_candidate matchable
takes-shared s topic selected sub h = ground arith

-- With the local selection one client of each shared group gets the publish: the first, in the
-- order of strings, of those that hold a matching subscription to the group's filter. Every other
-- session passes its subscription to that filter over.
pub shared_delivery :
    (s : OfflineSession) (topic : Str) (owned : List OfflineSession) (sub : OfflineSubscription)
    → is_candidate topic sub ≡ true
    → holders topic sub.filter owned ≢ []
    → (c : Str) × IsLeast (holders topic sub.filter owned) c
      × (takes s topic (select_shared_sessions owned topic) sub ≡ str_eq c s.client_id)
shared_delivery s topic owned sub h n = (
  selected_for sub.filter (select_shared_sessions owned topic),
  selected-IsLeast topic sub.filter owned n,
  takes-shared s topic (select_shared_sessions owned topic) sub h,
)
