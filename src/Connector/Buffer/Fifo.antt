-- ===== src/Connector/Buffer/Fifo.antt =====
-- buffer.go: the buffer is a queue that loses its oldest entries, and nothing else.
use mathlib.Core.List.{append_assoc}
use keel_mqtt_gateway.Prelude.{
  ◌≤◌, ◌<◌, ◌≡◌, refl, Bool, true, false, Option, none, some, List, [], ◌∷◌, ◌++◌, length,
  length-append, if◌then◌else◌, arith,
}
use keel_mqtt_gateway.Connector.Buffer.{Buffer, push, Round, took, ended, waits, next_round, close}

-- What a client of the buffer does.
pub data Call {ℓ} (A : Type ℓ) : Type ℓ where
  pushes : A → Call A
  nexts : Call A
  closes : Call A

-- A history: the buffer, and what has left it, delivered or dropped, in the order it left.
pub record History {ℓ} (A : Type ℓ) : Type ℓ where
  pub buffer : Buffer A
  pub accepted : List A
  pub left : List A

module _ {ℓ} {A : Type ℓ} where
  abbrev pub one : Option A → List A
  one none = []
  one (some x) = x ∷ []

  abbrev after_round : Round A → History A → History A
  after_round (took x b) h = record h { buffer = b; left = h.left ++ x ∷ [] }
  after_round ended h = h
  after_round waits h = h

  pub step : Call A → History A → History A
  step (pushes req) h = record {
    buffer = (push req h.buffer).0;
    accepted = if h.buffer.closed then h.accepted else h.accepted ++ req ∷ [];
    left = h.left ++ one (push req h.buffer).1;
  }
  step nexts h = after_round (next_round h.buffer) h
  step closes h = record h { buffer = close h.buffer }

  pub run : List (Call A) → History A → History A
  run [] h = h
  run (c ∷ cs) h = run cs (step c h)

  -- The buffer never holds more than its capacity, which is not 0, and what was accepted is, in
  -- order, what has left and then what is queued.
  pub record IsFifo (h : History A) : Type ℓ where
    pub room : 0 < h.buffer.capacity
    pub bounded : length h.buffer.items ≤ h.buffer.capacity
    pub in_order : h.accepted ≡ h.left ++ h.buffer.items

  -- One push: what it drops and what it keeps are what was there and the new request.
  pub record Pushes (req : A) (b : Buffer A) : Type ℓ where
    pub capacity_same : (push req b).0.capacity ≡ b.capacity
    pub fits : length (push req b).0.items ≤ b.capacity
    pub nothing_lost :
        one (push req b).1 ++ (push req b).0.items
        ≡ (if b.closed then b.items else b.items ++ req ∷ [])

  pub push-Pushes :
      (req : A) (b : Buffer A) (xs : List A)
      → b.items ≡ xs
      → 0 < b.capacity
      → length b.items ≤ b.capacity
      → Pushes req b
  unfolding push
  push-Pushes req b [] e room h = record {
    capacity_same = ground arith;
    fits = ground arith;
    nothing_lost = ground arith;
  }
  push-Pushes req b (x ∷ xs) e room h = record {
    capacity_same = ground arith;
    fits = ground (arith, length-append xs (req ∷ []), length-append (x ∷ xs) (req ∷ []));
    nothing_lost = ground arith;
  }

  push-IsFifo : (req : A) (h : History A) → IsFifo h → IsFifo (step (pushes req) h)
  unfolding step
  push-IsFifo req h v =
      let p = push-Pushes req h.buffer h.buffer.items refl v.room v.bounded in
      record {
        room = ground (arith, p.capacity_same);
        bounded = ground (arith, p.capacity_same, p.fits);
        in_order = order h.buffer.closed refl p.nothing_lost;
      }
    where
      out : List A
      out = one (push req h.buffer).1

      kept : List A
      kept = (push req h.buffer).0.items

      order :
          (closed : Bool)
          → h.buffer.closed ≡ closed
          → out ++ kept ≡ (if h.buffer.closed then h.buffer.items else h.buffer.items ++ req ∷ [])
          → (if h.buffer.closed then h.accepted else h.accepted ++ req ∷ [])
            ≡ (h.left ++ out) ++ kept
      order true c e = ground (arith, v.in_order, append_assoc h.left out kept)
      order false c e = ground (
        arith,
        v.in_order,
        append_assoc h.left out kept,
        append_assoc h.left h.buffer.items (req ∷ []),
      )

  nexts-IsFifo :
      (h : History A) (xs : List A) → h.buffer.items ≡ xs → IsFifo h → IsFifo (step nexts h)
  unfolding step next_round
  nexts-IsFifo h [] e v = record {
    room = ground arith;
    bounded = ground arith;
    in_order = ground arith;
  }
  nexts-IsFifo h (x ∷ xs) e v = record {
    room = ground arith;
    bounded = ground arith;
    in_order = ground (arith, append_assoc h.left (x ∷ []) xs);
  }

  step-IsFifo : (c : Call A) (h : History A) → IsFifo h → IsFifo (step c h)
  step-IsFifo (pushes req) h v = push-IsFifo req h v
  step-IsFifo nexts h v = nexts-IsFifo h h.buffer.items refl v
  step-IsFifo closes h v = unfold step close in ground arith

  -- Through any calls, from a history of which this holds, the buffer stays within its capacity,
  -- which is not 0, and requests leave it in the order in which they were accepted: a full buffer
  -- drops its oldest entry, never another.
  pub run-IsFifo : (cs : List (Call A)) (h : History A) → IsFifo h → IsFifo (run cs h)
  unfolding run
  run-IsFifo [] h v = v
  run-IsFifo (c ∷ cs) h v = run-IsFifo cs (step c h) (step-IsFifo c h v)
