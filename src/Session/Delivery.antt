-- ===== src/Session/Delivery.antt =====
-- internal/session/delivery.go: queueing a publish for the offline sessions of a node. Queue is a
-- parameter: it acts on a state W and answers queued, a duplicate, or an error.
pub mod Quality
pub mod Attempts
pub mod Shared
use keel_mqtt_gateway.Prelude.{
  ℕ, ◌+◌, Bool, true, false, not, ◌&&◌, ◌||◌, Option, none, some, List, [], ◌∷◌, ◌++◌, Str, Dict,
  str_eq, str_lt, lookup, insert, ltb, ◌==◌, if◌then◌else◌,
}
use keel_mqtt_gateway.Acl.Topic.{shared_filter, match_topic}
use keel_mqtt_gateway.Session.Offline.{OfflineSubscription, OfflineSession}

pub record InflightMessage : Type 0 where
  pub topic : Str
  pub payload : Str
  pub qos : ℕ

-- sharedSelected[filter] = clientID; a missing key reads as "".
abbrev pub selected_for : Str → Dict Str → Str
selected_for filter selected = elim (lookup filter selected) [ none ↦ [] | some c ↦ c ]

-- The filter to match the topic against; `none` where another client was selected for the group.
unfoldable pub matchable : Str → Dict Str → Str → Option (Str × Str) → Option Str
unfolding lookup str_eq
matchable client_id selected filter none = some filter
matchable client_id selected filter (some (group, underlying)) =
    if not (str_eq (selected_for filter selected) client_id) then none else some underlying

abbrev pub matches_filter : Str → Option Str → Bool
matches_filter topic none = false
matches_filter topic (some filter) = match_topic filter topic

-- Does the subscription take part for this client?
unfoldable pub takes : OfflineSession → Str → Dict Str → OfflineSubscription → Bool
unfolding matchable match_topic shared_filter
takes s topic selected sub =
    matches_filter topic (matchable s.client_id selected sub.filter (shared_filter sub.filter))

-- The body of the loop of bestMatchQoS after the filter is tested.
unfoldable pub best_step : Bool → ℕ → ℕ → ℕ × Bool → ℕ × Bool
best_step false publish_qos sub_qos state = state
best_step true publish_qos sub_qos (qos, matched) =
    let effective = if ltb publish_qos sub_qos then publish_qos else sub_qos in
    (if ltb qos effective then effective else qos, true)

-- The loop of bestMatchQoS, with its two results as the state.
unfoldable pub best_loop :
    OfflineSession → Str → ℕ → Dict Str → List OfflineSubscription → ℕ × Bool → ℕ × Bool
unfolding takes best_step
best_loop s topic publish_qos selected [] state = state
best_loop s topic publish_qos selected (sub ∷ subs) state =
    best_loop s topic publish_qos selected subs
      (best_step (takes s topic selected sub) publish_qos sub.qos state)

-- bestMatchQoS.
unfoldable pub best_match_qos : OfflineSession → Str → ℕ → Dict Str → ℕ × Bool
unfolding best_loop
best_match_qos s topic publish_qos selected =
    best_loop s topic publish_qos selected s.subscriptions (0, false)

-- candidates[filter] = append(candidates[filter], clientID)
abbrev pub candidates_for : Option (List Str) → List Str
candidates_for none = []
candidates_for (some clients) = clients

abbrev shared_match : Str → Option (Str × Str) → Bool
shared_match topic none = false
shared_match topic (some (group, filter)) = match_topic filter topic

-- Is the subscription a shared one whose underlying filter matches?
unfoldable pub is_candidate : Str → OfflineSubscription → Bool
unfolding match_topic shared_filter
is_candidate topic sub = shared_match topic (shared_filter sub.filter)

unfoldable pub add_candidates :
    Str → Str → List OfflineSubscription → Dict (List Str) → Dict (List Str)
unfolding is_candidate lookup insert
add_candidates topic client_id [] m = m
add_candidates topic client_id (sub ∷ subs) m = add_candidates topic client_id subs (
    if is_candidate topic sub
    then insert sub.filter (candidates_for (lookup sub.filter m) ++ client_id ∷ []) m
    else m)

unfoldable pub all_candidates : Str → List OfflineSession → Dict (List Str) → Dict (List Str)
unfolding add_candidates
all_candidates topic [] m = m
all_candidates topic (s ∷ owned) m =
    all_candidates topic owned (add_candidates topic s.client_id s.subscriptions m)

-- sort.Strings, as an insertion sort.
insert_sorted : Str → List Str → List Str
unfolding str_lt
insert_sorted x [] = x ∷ []
insert_sorted x (y ∷ ys) = if str_lt y x then y ∷ insert_sorted x ys else x ∷ y ∷ ys

unfoldable pub sort_strings : List Str → List Str
unfolding insert_sorted
sort_strings [] = []
sort_strings (x ∷ xs) = insert_sorted x (sort_strings xs)

abbrev pub first_or_empty : List Str → Str
first_or_empty [] = []
first_or_empty (x ∷ xs) = x

-- The second loop: the first client of each filter's candidates in sorted order.
unfoldable pub select_first : Dict (List Str) → Dict Str
unfolding sort_strings
select_first [] = []
select_first ((filter, clients) ∷ m) =
    (filter, first_or_empty (sort_strings clients)) ∷ select_first m

-- selectSharedSessions.
unfoldable pub select_shared_sessions : List OfflineSession → Str → Dict Str
unfolding all_candidates select_first
select_shared_sessions owned topic = select_first (all_candidates topic owned [])

pub data QueueResult : Type 0 where
  queued : ℕ → QueueResult
  duplicate : QueueResult
  failed : QueueResult

abbrev pub count_queued : QueueResult → ℕ → ℕ
count_queued (queued packet_id) n = n + 1
count_queued duplicate n = n
count_queued failed n = n

module _ {W : Type 0} (queue : Str → InflightMessage → W → W × QueueResult) where
  -- The body of the loop of Deliver after the QoS is known.
  unfoldable pub enqueue : Str → InflightMessage → W × ℕ → W × ℕ
  enqueue client_id msg (w, delivered) =
      let (w', result) = queue client_id msg w in (w', count_queued result delivered)

  unfoldable pub deliver_loop : Str → Str → ℕ → Dict Str → List OfflineSession → W × ℕ → W × ℕ
  unfolding enqueue best_match_qos
  deliver_loop topic payload publish_qos selected [] state = state
  deliver_loop topic payload publish_qos selected (s ∷ owned) state =
      let (qos, matched) = best_match_qos s topic publish_qos selected in
      let msg : InflightMessage = record { topic = topic; payload = payload; qos = qos } in
      let next = if not matched || qos == 0 then state else enqueue s.client_id msg state in
      deliver_loop topic payload publish_qos selected owned next

  -- Deliver: `none` for a nil SharedSelected, which falls back to the local selection.
  unfoldable pub deliver : Option (Dict Str) → List OfflineSession → Str → Str → ℕ → W → W × ℕ
  unfolding deliver_loop select_shared_sessions
  deliver shared_selected owned topic payload publish_qos w =
      let selected : Dict Str = elim shared_selected [
        | none ↦ select_shared_sessions owned topic
        | some m ↦ m
      ] in
      deliver_loop topic payload publish_qos selected owned (w, 0)
