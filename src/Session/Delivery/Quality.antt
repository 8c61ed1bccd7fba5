-- ===== src/Session/Delivery/Quality.antt =====
-- delivery.go, bestMatchQoS: the quality of service at which a publish is queued.
use Prim.Native.Nat.{min, max}
use keel_mqtt_gateway.Prelude.{
  ℕ, ◌≡◌, refl, ap, Bool, true, false, not, ◌||◌, List, [], ◌∷◌, Str, Dict, keep, is_nil, ltb,
  if◌then◌else◌, arith, ◌∙◌,
}
use keel_mqtt_gateway.Session.Offline.{OfflineSubscription, OfflineSession}
use keel_mqtt_gateway.Session.Delivery.{takes, best_step, best_loop, best_match_qos}

-- The highest of the qualities of some subscriptions, each lowered to that of the publish.
abbrev pub highest_qos : ℕ → List OfflineSubscription → ℕ
highest_qos publish_qos [] = 0
highest_qos publish_qos (sub ∷ subs) = max (min publish_qos sub.qos) (highest_qos publish_qos subs)

max-zero : (n : ℕ) → n ≡ max n 0
max-zero n = omega arith

zero-max : (n : ℕ) → max 0 n ≡ n
zero-max n = omega arith

best_step_lem :
    (b : Bool) (p q qos : ℕ) (matched : Bool)
    → best_step b p q (qos, matched) ≡ ((if b then max qos (min p q) else qos), matched || b)
unfolding best_step
best_step_lem true p q qos matched = λ i. (raised i, flag matched i)
  where
    raised : (let e = if ltb p q then p else q in if ltb qos e then e else qos) ≡ max qos (min p q)
    raised = ground arith

    flag : (m : Bool) → true ≡ (m || true)
    flag true = refl
    flag false = refl
best_step_lem false p q qos true = refl
best_step_lem false p q qos false = refl

-- One more subscription, which takes part or not.
highest_qos-cons :
    (b : Bool) (p qos : ℕ) (sub : OfflineSubscription) (subs : List OfflineSubscription)
    → max (if b then max qos (min p sub.qos) else qos) (highest_qos p subs)
      ≡ max qos (highest_qos p (if b then sub ∷ subs else subs))
highest_qos-cons true p qos sub subs = omega arith
highest_qos-cons false p qos sub subs = refl

matched-cons :
    (b m : Bool) (sub : OfflineSubscription) (subs : List OfflineSubscription)
    → ((m || b) || not (is_nil subs)) ≡ (m || not (is_nil (if b then sub ∷ subs else subs)))
matched-cons true true sub subs = refl
matched-cons true false sub subs = refl
matched-cons false true sub subs = refl
matched-cons false false sub subs = refl

module _ (s : OfflineSession) (topic : Str) (publish_qos : ℕ) (selected : Dict Str) where
  abbrev pub matching : List OfflineSubscription → List OfflineSubscription
  matching = keep (takes s topic selected)

  best_loop_lem :
      (subs : List OfflineSubscription) (qos : ℕ) (matched : Bool)
      → best_loop s topic publish_qos selected subs (qos, matched) ≡ (
        max qos (highest_qos publish_qos (matching subs)),
        (matched || not (is_nil (matching subs))),
      )
  unfolding best_loop
  best_loop_lem [] qos true = λ i. (max-zero qos i, true)
  best_loop_lem [] qos false = λ i. (max-zero qos i, false)
  best_loop_lem (sub ∷ subs) qos matched =
      let b = takes s topic selected sub in
      let qos' = if b then max qos (min publish_qos sub.qos) else qos in
      ap (best_loop s topic publish_qos selected subs)
        (best_step_lem b publish_qos sub.qos qos matched)
      ∙ best_loop_lem subs qos' (matched || b)
      ∙ (λ i. (
        highest_qos-cons b publish_qos qos sub (matching subs) i,
        matched-cons b matched sub (matching subs) i,
      ))

  -- The answer is the highest quality among the subscriptions that match, each lowered to that of
  -- the publish, and whether any matches; the order of the subscriptions plays no part.
  pub best_match_qos_lem : best_match_qos s topic publish_qos selected ≡ (
    highest_qos publish_qos (matching s.subscriptions),
    not (is_nil (matching s.subscriptions)),
  )
  unfolding best_match_qos
  best_match_qos_lem = best_loop_lem s.subscriptions 0 false ∙ (λ i. (
    zero-max (highest_qos publish_qos (matching s.subscriptions)) i,
    not (is_nil (matching s.subscriptions)),
  ))
