-- ===== src/Broker/Dispatch/Due.antt =====
-- delivery.go: a client whose subscription matches the topic is due a copy.
use keel_mqtt_gateway.Prelude.{
  ℕ, ◌≡◌, refl, ap, ◌∙◌, inl, inr, Bool, true, false, not, ◌&&◌, ◌||◌, none, List, [], ◌∷◌, Str,
  Dict, str_eq, str_eq_iff, any, keep, is_nil, ◌==◌, Bool-cases, arith,
}
use keel_mqtt_gateway.Acl.Topic.{shared_filter, match_topic}
use keel_mqtt_gateway.Session.Offline.{
  OfflineSubscription, StoredSubscription, OfflineSession, rows_for,
}
use keel_mqtt_gateway.Session.Delivery.{matchable, matches_filter, takes}
use keel_mqtt_gateway.Session.Delivery.Attempts.{is_due}
use keel_mqtt_gateway.Session.Delivery.Quality.{highest_qos, best_match_qos_lem}

-- A row of the client for the filter, at a quality above 0.
abbrev pub is_row : Str → Str → StoredSubscription → Bool
is_row client_id filter sub =
    str_eq sub.client client_id && (str_eq sub.filter filter && not (sub.qos == 0))

-- A subscription that takes part, at a quality above 0.
abbrev pub counts : OfflineSession → Str → Dict Str → OfflineSubscription → Bool
counts s topic selected sub = takes s topic selected sub && not (sub.qos == 0)

highest-positive :
    (s : OfflineSession) (topic : Str) (publish_qos : ℕ) (selected : Dict Str)
    (subs : List OfflineSubscription)
    → (publish_qos == 0) ≡ false
    → any (counts s topic selected) subs ≡ true
    → (highest_qos publish_qos (keep (takes s topic selected) subs) == 0) ≡ false
highest-positive s topic q sel [] h k = absurd (ground arith)
highest-positive s topic q sel (sub ∷ subs) h k = elim (Bool-cases (takes s topic sel sub)) [
  | inl e ↦ elim (Bool-cases (sub.qos == 0)) [
    | inl z ↦ ground (arith, highest-positive s topic q sel subs h)
    | inr z ↦ ground arith
  ]
  | inr e ↦ ground (arith, highest-positive s topic q sel subs h)
]

not-nil :
    (q : ℕ) (subs : List OfflineSubscription)
    → (highest_qos q subs == 0) ≡ false
    → is_nil subs ≡ false
not-nil q [] h = absurd (ground arith)
not-nil q (sub ∷ subs) h = refl

due_of :
    (h : ℕ) (n : Bool) (r : ℕ × Bool)
    → r ≡ (h, not n)
    → (h == 0) ≡ false
    → n ≡ false
    → (not (not r.1 || r.0 == 0)) ≡ true
due_of h n r e k l = ground arith

pub due :
    (s : OfflineSession) (topic payload : Str) (publish_qos : ℕ) (selected : Dict Str)
    → (publish_qos == 0) ≡ false
    → any (counts s topic selected) s.subscriptions ≡ true
    → is_due topic payload publish_qos selected s ≡ true
due s topic payload q sel h k =
    let positive = highest-positive s topic q sel s.subscriptions h k in
    due_of _ _ _ (best_match_qos_lem s topic q sel) positive (not-nil q _ positive)

module _ (c f topic : Str) where
  takes-plain :
      (s : OfflineSession) (selected : Dict Str) (sub : OfflineSubscription)
      → shared_filter f ≡ none
      → match_topic f topic ≡ true
      → str_eq sub.filter f ≡ true
      → takes s topic selected sub ≡ true
  unfolding takes matchable
  takes-plain s sel sub h m e =
      ap (λ g. matches_filter topic (matchable s.client_id sel g (shared_filter g)))
        ((str_eq_iff sub.filter f).0 e)
      ∙ ap (λ o. matches_filter topic (matchable s.client_id sel f o)) h
      ∙ m

  pub row-counts :
      (s : OfflineSession) (selected : Dict Str) (rows : List StoredSubscription)
      → shared_filter f ≡ none
      → match_topic f topic ≡ true
      → any (is_row c f) rows ≡ true
      → any (counts s topic selected) (rows_for c rows) ≡ true
  unfolding rows_for
  row-counts s sel [] h m k = absurd (ground arith)
  row-counts s sel (r ∷ rows) h m k = elim (Bool-cases (str_eq r.client c)) [
    | inl e ↦ elim (Bool-cases (str_eq r.filter f)) [
      | inl e' ↦ ground (
        arith,
        takes-plain s sel (record { filter = r.filter; qos = r.qos }) h m e',
        row-counts s sel rows h m,
      )
      | inr e' ↦ ground (arith, row-counts s sel rows h m)
    ]
    | inr e ↦ ground (arith, row-counts s sel rows h m)
  ]
