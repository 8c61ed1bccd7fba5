-- ===== src/Connector/Buffer.antt =====
-- internal/connector/buffer.go: MemoryOutputBuffer. The requests are of any type A. The channel
-- `signal` has room for one token: it is a Bool.
pub mod Fifo
pub mod Wakeup
use keel_mqtt_gateway.Prelude.{
  ℕ, suc, zero, Bool, true, false, Option, none, some, List, [], ◌∷◌, ◌++◌, length, leb, ℤ, pos,
  negsuc, if◌then◌else◌,
}

pub record Buffer {ℓ} (A : Type ℓ) : Type ℓ where
  pub items : List A
  pub capacity : ℕ
  pub closed : Bool
  pub signal : Bool

abbrev positive : ℤ → ℕ
positive (pos zero) = 1
positive (pos (suc n)) = suc n
positive (negsuc n) = 1

-- What one round of the loop of Next finds under the lock: a request, the end, or a wait.
pub data Round {ℓ} (A : Type ℓ) : Type ℓ where
  took : A → Buffer A → Round A
  ended : Round A
  waits : Round A

module _ {ℓ} {A : Type ℓ} where
  -- NewMemoryOutputBuffer: a capacity of 0 or less is taken for 1.
  unfoldable pub new_buffer : ℤ → Buffer A
  new_buffer capacity = record {
    items = [];
    capacity = positive capacity;
    closed = false;
    signal = false;
  }

  -- The oldest request leaves a full buffer.
  abbrev evict : Bool → List A → List A × Option A
  evict true (x ∷ xs) = (xs, some x)
  evict true [] = ([], none)
  evict false xs = (xs, none)

  -- Push, what it does under the lock: the buffer, the dropped request, and whether it goes on to
  -- signal. A closed buffer returns at once.
  unfoldable pub push_locked : A → Buffer A → Buffer A × Option A × Bool
  push_locked req b =
      let (kept, dropped) = evict (leb b.capacity (length b.items)) b.items in
      if b.closed then (b, none, false) else (record b { items = kept ++ req ∷ [] }, dropped, true)

  -- The send to `signal`, which never blocks.
  abbrev pub notify : Buffer A → Buffer A
  notify b = record b { signal = true }

  -- Push: the dropped request, if any.
  unfoldable pub push : A → Buffer A → Buffer A × Option A
  unfolding push_locked
  push req b =
      let (b', dropped, signals) = push_locked req b in (if signals then notify b' else b', dropped)

  abbrev take_first : List A → Buffer A → Round A
  take_first (x ∷ xs) b = took x (record b { items = xs })
  take_first [] b = if b.closed then ended else waits

  -- One round of the loop of Next, up to its wait.
  unfoldable pub next_round : Buffer A → Round A
  next_round b = take_first b.items b

  -- Close, under the lock: the buffer and whether it goes on to signal.
  unfoldable pub close_locked : Buffer A → Buffer A × Bool
  close_locked b = if b.closed then (b, false) else (record b { closed = true }, true)

  -- Close.
  unfoldable pub close : Buffer A → Buffer A
  unfolding close_locked
  close b = let (b', signals) = close_locked b in if signals then notify b' else b'
