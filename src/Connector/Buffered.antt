-- ===== src/Connector/Buffered.antt =====
-- internal/connector/buffered.go: Forward and forwardWithRetry of BufferedConnector. The inner
-- connector is a parameter: it acts on a state W. Whether the context is done at a backoff is an
-- input, one Bool for each attempt.
use keel_mqtt_gateway.Prelude.{
  ℕ, suc, ◌+◌, ◌≤◌, ◌<◌, ◌≡◌, refl, ◌∙◌, ap, ◌⊎◌, Bool, true, false, not, ◌&&◌, Option, none, some,
  List, [], ◌∷◌, ◌++◌, length, length-append, if◌then◌else◌, ◌==◌, arith,
}
use keel_mqtt_gateway.Connector.Buffer.{Buffer, push}
use keel_mqtt_gateway.Connector.Buffer.Fifo.{one, push-Pushes}

-- The ForwarderDropped counters of this connector, by reason.
pub record Dropped : Type 0 where
  pub buffer_full : ℕ
  pub forward_error : ℕ

abbrev count_full {ℓ} : {A : Type ℓ} → Option A → Dropped → Dropped
count_full none d = d
count_full (some x) d = record d { buffer_full = d.buffer_full + 1 }

-- Forward: the buffer, the counters, and the Success of the response.
unfoldable pub forward {ℓ} : {A : Type ℓ} → A → Buffer A × Dropped → Buffer A × Dropped × Bool
unfolding push
forward req (b, d) = let (b', dropped) = push req b in (b', count_full dropped d, true)

-- What the inner connector answers: an error, a nil response, or a response.
pub data Response : Type 0 where
  err : Response
  nil_response : Response
  response : Bool → Response

abbrev pub succeeds : Response → Bool
succeeds err = false
succeeds nil_response = false
succeeds (response success) = success

-- How a request ends: accepted downstream, given up at a backoff, or dropped after the last attempt.
pub data Outcome : Type 0 where
  accepted cancelled exhausted : Outcome

-- forwardRetryBackoff, in milliseconds.
abbrev pub forward_retry_backoff : List ℕ
forward_retry_backoff = 0 ∷ 200 ∷ 1000 ∷ []

abbrev count_error : Outcome → Dropped → Dropped
count_error exhausted d = record d { forward_error = d.forward_error + 1 }
count_error accepted d = d
count_error cancelled d = d

module _ {W : Type 0} (inner_forward : W → W × Response) (ctx_done : ℕ → Bool) where
  -- The loop over the backoffs from the attempt i on.
  unfoldable pub attempt_loop : List ℕ → ℕ → W → W × Outcome
  attempt_loop [] i w = (w, exhausted)
  attempt_loop (d ∷ ds) i w =
      let (w', answer) = inner_forward w in
      let again = attempt_loop ds (suc i) w' in
      let tried = if succeeds answer then (w', accepted) else again in
      if not (i == 0) && ctx_done i then (w, cancelled) else tried

  -- forwardWithRetry: the state, the counters and how it ended.
  unfoldable pub forward_with_retry : W → Dropped → W × Dropped × Outcome
  unfolding attempt_loop
  forward_with_retry w d =
      let (w', outcome) = attempt_loop forward_retry_backoff 0 w in
      (w', count_error outcome d, outcome)

-- Against a downstream that counts its calls and answers as it likes, a request is tried between
-- once and three times, ends, and is counted as dropped exactly when it was tried three times and
-- never accepted.
pub forward_with_retry_lem :
    (answers : ℕ → Response) (ctx_done : ℕ → Bool) (d : Dropped)
    → let (calls, d', outcome) = forward_with_retry (λ (n : ℕ). (n + 1, answers n)) ctx_done 0 d in
      (1 ≤ calls)
      × (calls ≤ 3)
      × (d'.buffer_full ≡ d.buffer_full)
      × (((outcome ≡ exhausted) × (calls ≡ 3) × (d'.forward_error ≡ d.forward_error + 1))
          ⊎ ((outcome ≡ accepted) × (d'.forward_error ≡ d.forward_error))
          ⊎ ((outcome ≡ cancelled) × (calls < 3) × (d'.forward_error ≡ d.forward_error)))
unfolding forward_with_retry
forward_with_retry_lem answers ctx_done d = (ground arith, ground arith, ground arith, ground arith)

-- After Close, Forward still answers success: the request is in no buffer and in no counter.
pub forward_closed {ℓ} :
    {A : Type ℓ} (req : A) (b : Buffer A) (d : Dropped)
    → b.closed ≡ true
    → forward req (b, d) ≡ (b, d, true)
unfolding forward
forward_closed req b d h = ground arith

count_full-length {ℓ} :
    {A : Type ℓ} (o : Option A) (d : Dropped)
    → (count_full o d).buffer_full ≡ d.buffer_full + length (one o)
count_full-length none d = omega arith
count_full-length (some x) d = omega arith

-- Forward, on a buffer that is within a capacity above 0, reports success and keeps it so. On an
-- open buffer what is queued and what is counted as dropped grow by one together, so each loss is
-- counted; on a closed buffer neither grows.
pub forward_lem {ℓ} :
    {A : Type ℓ} (req : A) (b : Buffer A) (d : Dropped)
    → 0 < b.capacity
    → length b.items ≤ b.capacity
    → let (b', d', success) = forward req (b, d) in
      (success ≡ true)
      × (length b'.items + d'.buffer_full
          ≡ length b.items + d.buffer_full + (if b.closed then 0 else 1))
      × (length b'.items ≤ b.capacity)
unfolding forward
forward_lem req b d room fits =
    let p = push-Pushes req b b.items refl room fits in
    let dropped = (push req b).1 in
    let lost = ap length (p.nothing_lost) in
    (
      refl,
      omega (
        arith,
        count_full-length dropped d,
        length-append (one dropped) (push req b).0.items,
        length-append b.items (req ∷ []),
        lost ∙ kept_length b.closed,
      ),
      p.fits,
    )
  where
    kept_length :
        (c : Bool)
        → length (if c then b.items else b.items ++ req ∷ [])
          ≡ length b.items + (if c then 0 else 1)
    kept_length true = omega arith
    kept_length false = length-append b.items (req ∷ [])
