-- ===== src/Connector/Buffer/Wakeup.antt =====
-- buffer.go and the drain loop of buffered.go: producers and one consumer, interleaved. A producer
-- sends to `signal` after it has left the lock, so each push and each close is two steps.
use mathlib.Core.Bool.{false≢true}
use keel_mqtt_gateway.Prelude.{
  ℕ, suc, zero, ◌<◌, ◌≡◌, refl, sym, ◌∙◌, subst, Bool-cases, ◌≢◌, ◌⊎◌, inl, inr, Bool, true, false,
  none, List, [], ◌∷◌, arith,
}
use keel_mqtt_gateway.Connector.Buffer.{
  Buffer, notify, push_locked, Round, took, ended, waits, next_round, close_locked,
}

-- Where the consumer is in Next: at the top of its loop, in the select, or returned for good.
pub data Consumer : Type 0 where
  looping waiting returned : Consumer

pub record System {ℓ} (A : Type ℓ) : Type ℓ where
  pub buffer : Buffer A
  -- producers that have left the lock and not yet sent to `signal`
  pub unsent : ℕ
  pub consumer : Consumer

abbrev plus_one : Bool → ℕ → ℕ
plus_one true n = suc n
plus_one false n = n

module _ {ℓ} {A : Type ℓ} where
  abbrev pub consumer_after : Round A → Consumer
  consumer_after (took x b) = looping
  consumer_after ended = returned
  consumer_after waits = waiting

  abbrev pub buffer_after : Round A → Buffer A → Buffer A
  buffer_after (took x b') b = b'
  buffer_after ended b = b
  buffer_after waits b = b

  pub data Step (s : System A) : System A → Type ℓ where
    pushes :
        (req : A)
        → Step s (record s {
          buffer = (push_locked req s.buffer).0;
          unsent = plus_one (push_locked req s.buffer).2 s.unsent;
        })
    closes : Step s (record s {
      buffer = (close_locked s.buffer).0;
      unsent = plus_one (close_locked s.buffer).1 s.unsent;
    })
    sends : (n : ℕ) → s.unsent ≡ suc n → Step s (record s { buffer = notify s.buffer; unsent = n })
    checks :
        s.consumer ≡ looping
        → Step s (record s {
          buffer = buffer_after (next_round s.buffer) s.buffer;
          consumer = consumer_after (next_round s.buffer);
        })
    wakes :
        s.consumer ≡ waiting
        → s.buffer.signal ≡ true
        → Step s (record s { buffer = record (s.buffer) { signal = false }; consumer = looping })
    -- The context is done.
    cancels : s.consumer ≡ waiting → Step s (record s { consumer = returned })

  pub data Reach (s : System A) : System A → Type ℓ where
    here : Reach s s
    next : {t u : System A} → Reach s t → Step t u → Reach s u

  -- The steps of producers that have left the lock, and of the consumer in its select.
  abbrev pub is_waking : {s t : System A} → Step s t → Bool
  is_waking (pushes req) = false
  is_waking closes = false
  is_waking (sends n e) = true
  is_waking (checks e) = false
  is_waking (wakes e g) = true
  is_waking (cancels e) = false

  -- By such steps alone.
  pub data ReachWaking (s : System A) : System A → Type ℓ where
    at_once : ReachWaking s s
    then_by :
        {t u : System A} → ReachWaking s t → (st : Step t u) → is_waking st ≡ true → ReachWaking s u

  -- A consumer in its select has a token, or a producer is about to send one, unless there is
  -- nothing to take and the buffer is open.
  abbrev pub IsAwake : System A → Type ℓ
  IsAwake s =
      (s.consumer ≢ waiting)
      ⊎ (s.buffer.items ≡ []) × (s.buffer.closed ≡ false)
      ⊎ (s.buffer.signal ≡ true)
      ⊎ (0 < s.unsent)

  push_locked_closed :
      (req : A) (b : Buffer A) → b.closed ≡ true → push_locked req b ≡ (b, none, false)
  unfolding push_locked
  push_locked_closed req b e = ground arith

  close_locked_closed : (b : Buffer A) → b.closed ≡ true → close_locked b ≡ (b, false)
  unfolding close_locked
  close_locked_closed b e = ground arith

  next_round-waits :
      (b : Buffer A)
      → (consumer_after (next_round b) ≢ waiting)
        ⊎ ((next_round b ≡ waits) × (b.items ≡ []) × (b.closed ≡ false))
  next_round-waits b = round b.items refl (Bool-cases b.closed)
    where
      round :
          (xs : List A)
          → b.items ≡ xs
          → (b.closed ≡ true) ⊎ (b.closed ≡ false)
          → (consumer_after (next_round b) ≢ waiting)
            ⊎ ((next_round b ≡ waits) × (b.items ≡ []) × (b.closed ≡ false))
      round (x ∷ xs) e c = inl (λ h. unfold next_round in ground arith)
      round [] e (inl c) = inl (λ h. unfold next_round in ground arith)
      round [] e (inr c) = inr (unfold next_round in ground arith, e, c)

  checks-IsAwake :
      (s : System A)
      → IsAwake (record s {
        buffer = buffer_after (next_round s.buffer) s.buffer;
        consumer = consumer_after (next_round s.buffer);
      })
  checks-IsAwake s = elim (next_round-waits s.buffer) [
    | inl h ↦ inl h
    | inr (e, i, c) ↦
        subst
          (λ r.
            IsAwake (record s { buffer = buffer_after r s.buffer; consumer = consumer_after r }))
          (sym e) (inr (inl (i, c)))
  ]

  Step-IsAwake : {s t : System A} → Step s t → IsAwake s → IsAwake t
  Step-IsAwake {s} (pushes req) v = pushed s.buffer.closed refl
    where
      pushed :
          (c : Bool)
          → s.buffer.closed ≡ c
          → IsAwake (record s {
            buffer = (push_locked req s.buffer).0;
            unsent = plus_one (push_locked req s.buffer).2 s.unsent;
          })
      pushed true e =
          subst (λ r. IsAwake (record s { buffer = r.0; unsent = plus_one r.2 s.unsent }))
            (sym (push_locked_closed req s.buffer e)) v
      pushed false e = inr (inr (inr (unfold push_locked in ground arith)))
  Step-IsAwake {s} closes v = elim (Bool-cases s.buffer.closed) [
    | inl e ↦
        subst (λ r. IsAwake (record s { buffer = r.0; unsent = plus_one r.1 s.unsent }))
          (sym (close_locked_closed s.buffer e)) v
    | inr e ↦ inr (inr (inr (unfold close_locked in ground arith)))
  ]
  Step-IsAwake {s} (sends n e) v = inr (inr (inl refl))
  Step-IsAwake {s} (checks e) v = checks-IsAwake s
  Step-IsAwake {s} (wakes e g) v = inl (λ h. cc)
  Step-IsAwake {s} (cancels e) v = inl (λ h. cc)

  -- In every state that is reached from one of which this holds, a waiting consumer has something
  -- to wait for: where a request is queued or the buffer is closed, the token is there or a
  -- producer is about to send it.
  pub Reach-IsAwake : {s t : System A} → IsAwake s → Reach s t → IsAwake t
  Reach-IsAwake v here = v
  Reach-IsAwake v (next r st) = Step-IsAwake st (Reach-IsAwake v r)

  send_and_wake :
      (s : System A) (n : ℕ)
      → s.consumer ≡ waiting
      → s.unsent ≡ suc n
      → ReachWaking s (record s {
        buffer = record (s.buffer) { signal = false };
        unsent = n;
        consumer = looping;
      })
  send_and_wake s n w e = then_by (then_by at_once (sends n e) refl) (wakes w refl) refl

  unsent_suc : (s : System A) → 0 < s.unsent → (n : ℕ) × (s.unsent ≡ suc n)
  unsent_suc s h = counted s.unsent refl h
    where
      counted : (n : ℕ) → s.unsent ≡ n → 0 < n → (k : ℕ) × (s.unsent ≡ suc k)
      counted zero e h = elim h [ ]
      counted (suc n) e h = (n, e)

  -- No wake-up is lost: from every state that is reached from one where no consumer waits in vain
  -- and in which the consumer waits while a request is queued or the buffer is closed, the sends of
  -- producers that have already left the lock and the wake-up of the consumer, and no other steps,
  -- bring it back to its loop, with the same requests queued.
  pub no_lost_wakeup :
      (s t : System A)
      → IsAwake s
      → Reach s t
      → t.consumer ≡ waiting
      → (t.buffer.items ≢ []) ⊎ (t.buffer.closed ≡ true)
      → (u : System A) × ReachWaking t u
        × (u.consumer ≡ looping)
        × (u.buffer.items ≡ t.buffer.items)
  no_lost_wakeup s t v r w h = resume (Reach-IsAwake v r) h
    where
      resume :
          IsAwake t
          → (t.buffer.items ≢ []) ⊎ (t.buffer.closed ≡ true)
          → (u : System A) × ReachWaking t u
            × (u.consumer ≡ looping)
            × (u.buffer.items ≡ t.buffer.items)
      resume (inl n) h = absurd (n w)
      resume (inr (inl (i, c))) (inl n) = absurd (n i)
      resume (inr (inl (i, c))) (inr k) = absurd (false≢true (sym c ∙ k))
      resume (inr (inr (inl g))) h = (_, then_by at_once (wakes w g) refl, refl, refl)
      resume (inr (inr (inr p))) h =
          let (n, e) = unsent_suc t p in (_, send_and_wake t n w e, refl, refl)
