-- ===== src/Session/Delivery/Attempts.antt =====
-- delivery.go, Deliver: which deliveries are attempted.
use keel_mqtt_gateway.Prelude.{
  ℕ, suc, ◌+◌, ◌≤◌, ◌≡◌, refl, ap, length-map, length-keep-le, Bool, not, ◌||◌, Option, none, some,
  List, [], ◌∷◌, map, Str, Dict, keep, length, ◌==◌, arith, Bool-cases, inl, inr,
}
use keel_mqtt_gateway.Session.Offline.{OfflineSession}
use keel_mqtt_gateway.Session.Delivery.{
  InflightMessage, QueueResult, queued, duplicate, failed, count_queued, best_match_qos,
  select_shared_sessions, enqueue, deliver_loop, deliver,
}

module _ (topic payload : Str) (publish_qos : ℕ) (selected : Dict Str) where
  -- A session that some subscription matches at a quality above 0.
  abbrev pub is_due : OfflineSession → Bool
  is_due s =
      let (qos, matched) = best_match_qos s topic publish_qos selected in
      not (not matched || qos == 0)

  abbrev pub message_for : OfflineSession → Str × InflightMessage
  message_for s = (
    s.client_id,
    record {
      topic = topic;
      payload = payload;
      qos = (best_match_qos s topic publish_qos selected).0;
    },
  )

  -- What is handed to the queue: one message for each session that is due, in order.
  abbrev pub attempts : List OfflineSession → List (Str × InflightMessage)
  attempts owned = map message_for (keep is_due owned)

module _ {W : Type 0} (queue : Str → InflightMessage → W → W × QueueResult) where
  -- The queue called on each, whatever it answers.
  pub enqueue_all : List (Str × InflightMessage) → W × ℕ → W × ℕ
  enqueue_all [] state = state
  enqueue_all ((client_id, msg) ∷ rest) state = enqueue_all rest (enqueue queue client_id msg state)

  deliver_loop-attempts :
      (topic payload : Str) (publish_qos : ℕ) (selected : Dict Str) (owned : List OfflineSession)
      (state : W × ℕ)
      → deliver_loop queue topic payload publish_qos selected owned state
        ≡ enqueue_all (attempts topic payload publish_qos selected owned) state
  unfolding deliver_loop enqueue_all
  deliver_loop-attempts topic payload q sel [] state = refl
  deliver_loop-attempts topic payload q sel (s ∷ owned) state =
      elim (Bool-cases (is_due topic payload q sel s)) [
        | inl e ↦ ground (
          arith,
          deliver_loop-attempts topic payload q sel owned
              (enqueue queue s.client_id (message_for topic payload q sel s).1 state),
        )
        | inr e ↦ ground (arith, deliver_loop-attempts topic payload q sel owned state)
      ]

  -- What Deliver falls back to when no selection is given.
  abbrev pub selection : Option (Dict Str) → List OfflineSession → Str → Dict Str
  selection none owned topic = select_shared_sessions owned topic
  selection (some m) owned topic = m

  -- Deliver hands the queue one message for each session that is due, in order, whatever the queue
  -- answers: a failure or a duplicate for one session never keeps another from being tried.
  pub deliver-attempts :
      (shared : Option (Dict Str)) (owned : List OfflineSession) (topic payload : Str)
      (publish_qos : ℕ) (w : W)
      → deliver queue shared owned topic payload publish_qos w
        ≡ enqueue_all
            (attempts topic payload publish_qos (selection shared owned topic) owned)
            (w, 0)
  unfolding deliver
  deliver-attempts none owned topic payload q w =
      deliver_loop-attempts topic payload q _ owned (w, 0)
  deliver-attempts (some m) owned topic payload q w =
      deliver_loop-attempts topic payload q m owned (w, 0)

  enqueue_all-count :
      (msgs : List (Str × InflightMessage)) (w : W) (n : ℕ)
      → (enqueue_all msgs (w, n)).1 ≤ n + length msgs
  unfolding enqueue_all enqueue
  enqueue_all-count [] w n = omega arith
  enqueue_all-count ((client_id, msg) ∷ msgs) w n =
      let (w', result) = queue client_id msg w in answer result (enqueue_all-count msgs w')
    where
      answer :
          (r : QueueResult)
          → ((k : ℕ) → (enqueue_all msgs ((queue client_id msg w).0, k)).1 ≤ k + length msgs)
          → (enqueue_all msgs ((queue client_id msg w).0, count_queued r n)).1
            ≤ n + suc (length msgs)
      answer (queued id) ih = omega (arith, ih (n + 1))
      answer duplicate ih = omega (arith, ih n)
      answer failed ih = omega (arith, ih n)

  -- The count that Deliver returns is at most the number of sessions.
  pub deliver-le :
      (shared : Option (Dict Str)) (owned : List OfflineSession) (topic payload : Str)
      (publish_qos : ℕ) (w : W)
      → (deliver queue shared owned topic payload publish_qos w).1 ≤ length owned
  deliver-le shared owned topic payload q w =
      let sel = selection shared owned topic in
      let msgs = attempts topic payload q sel owned in
      omega (
        arith,
        ap (λ r. r.1) (deliver-attempts shared owned topic payload q w),
        enqueue_all-count msgs w 0,
        length-map (keep (is_due topic payload q sel) owned) (message_for topic payload q sel),
        length-keep-le (is_due topic payload q sel) owned,
      )
