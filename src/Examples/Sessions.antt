-- ===== src/Examples/Sessions.antt =====
-- Offline sessions of two edge nodes, and publishes to them.
use mathlib.Core.List.{Mem, mem-cons, not-mem-nil, is_set}
use mathlib.Core.Logic.Or
use native.Mathlib.Nat.{ℕ_set}
use keel_mqtt_gateway.Prelude.{
  ℕ, zero, suc, ◌≡◌, refl, sym, ◌∙◌, ◌≢◌, ◌⊎◌, none, some, List, [], ◌∷◌, Str, codes, arith,
}
use keel_mqtt_gateway.Session.Placement.{rendezvous_score, owner}
use keel_mqtt_gateway.Session.Placement.Score.{ScoresDistinct}
use keel_mqtt_gateway.Session.Placement.Stability.{owner_stable}
use keel_mqtt_gateway.Session.Offline.{OfflineSubscription, OfflineSession, StoredSubscription}
use keel_mqtt_gateway.Session.Delivery.{InflightMessage, QueueResult, queued, duplicate, deliver}

abbrev edge1 : Str
edge1 = codes "edge-1"

abbrev edge2 : Str
edge2 = codes "edge-2"

abbrev dev : Str
dev = codes "dev"

scores_differ : rendezvous_score dev edge1 ≢ rendezvous_score dev edge2
unfolding rendezvous_score
scores_differ = λ e. omega arith

owner-dev : owner dev (edge1 ∷ edge2 ∷ []) ≡ owner dev (edge2 ∷ edge1 ∷ [])
unfolding owner
owner-dev = refl

one_of :
    (m : Str) (P : Str → Type 0)
    → (IsProp (P m))
    → (m ≡ edge1 → P m)
    → (m ≡ edge2 → P m)
    → Mem m (edge1 ∷ edge2 ∷ [])
    → P m
one_of m P prop p1 p2 h =
    Or.elim prop (mem-cons.0 h) p1
      (λ h'. Or.elim prop (mem-cons.0 h') p2 (λ h''. absurd (not-mem-nil h'')))

dev-ScoresDistinct : ScoresDistinct dev (edge1 ∷ edge2 ∷ [])
dev-ScoresDistinct m n mm mn e =
    one_of m (λ x. m ≡ n) (is_set ℕ_set m n)
      (λ e1.
        one_of n (λ x. m ≡ n) (is_set ℕ_set m n) (λ e2. e1 ∙ sym e2)
          (λ e2. absurd (scores_differ (cc))) mn)
      (λ e1.
        one_of n (λ x. m ≡ n) (is_set ℕ_set m n) (λ e2. absurd (scores_differ (cc)))
          (λ e2. e1 ∙ sym e2) mn)
      mm

owner_stable_example : (edge1 ≡ edge2) ⊎ (owner dev (edge1 ∷ []) ≡ some edge1)
unfolding owner
owner_stable_example = owner_stable dev edge2 edge1 (edge1 ∷ []) [] refl

abbrev stored : List StoredSubscription
stored =
    record { client = dev; filter = codes "a/#"; qos = 1 }
    ∷ record { client = codes "other"; filter = codes "b"; qos = 0 }
    ∷ record { client = dev; filter = codes "$share/g/a/+"; qos = 2 }
    ∷ []

abbrev shared_sub : OfflineSubscription
shared_sub = record { filter = codes "$share/g/a/+"; qos = 2 }

abbrev own_sub : OfflineSubscription
own_sub = record { filter = codes "a/#"; qos = 1 }

abbrev second_session : OfflineSession
second_session = record { client_id = codes "y"; subscriptions = shared_sub ∷ own_sub ∷ [] }

abbrev first_session : OfflineSession
first_session = record { client_id = codes "x"; subscriptions = shared_sub ∷ [] }

abbrev both_sessions : List OfflineSession
both_sessions = second_session ∷ first_session ∷ []

abbrev topic_ab : Str
topic_ab = codes "a/b"

-- A queue that counts what it is given and takes the first message only.
abbrev first_only : Str → InflightMessage → ℕ → ℕ × QueueResult
first_only client_id msg n = (suc n, elim n [ zero ↦ queued 7 | suc k ↦ duplicate ])

delivered_one : deliver first_only none both_sessions topic_ab (codes "p") 2 0 ≡ (2, 1)
unfolding deliver
delivered_one = refl
