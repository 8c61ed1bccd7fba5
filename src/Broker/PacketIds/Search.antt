-- ===== src/Broker/PacketIds/Search.antt =====
-- offline_packet_id.go: the search finds the next free ID, and fails only where there is none.
use keel_mqtt_gateway.Prelude.{
  ℕ, suc, zero, ◌+◌, ◌-◌, ◌%◌, ◌≤◌, ◌<◌, ◌≡◌, refl, sym, ap, ◌∙◌, Bool, true, false, not, ◌&&◌, inl,
  inr, ◌⊎◌, leb, leb→le, if◌then◌else◌, Bool-cases, arith,
}
use keel_mqtt_gateway.Broker.PacketIds.{packet_ids, id_of, search_from, next_offline_packet_counter}

-- The counter is the first one after `counter`, at most one cycle on, whose ID is free.
pub record IsNextFree (used : ℕ → Bool) (counter next : ℕ) : Type 0 where
  pub later : counter < next
  pub in_cycle : next ≤ counter + packet_ids
  pub free : used (id_of next) ≡ false
  pub first : (n : ℕ) → counter < n → n < next → used (id_of n) ≡ true

or_last : (n m : ℕ) → n ≤ m + 1 → (n ≤ m) ⊎ (n ≡ m + 1)
or_last n m h = ground arith

id_of-next :
    (counter offset : ℕ) → id_of (counter + offset + 1) ≡ (counter + offset) % packet_ids + 1
id_of-next counter offset = ap (λ n. n % packet_ids + 1) (omega arith)

search_from-cases :
    (used : ℕ → Bool) (counter offset rounds : ℕ)
    → ((n : ℕ) → counter < n → n ≤ counter + offset → used (id_of n) ≡ true)
    → offset + rounds ≡ packet_ids
    → ((search_from used counter offset rounds ≡ 0)
        × ((n : ℕ) → counter < n → n ≤ counter + packet_ids → used (id_of n) ≡ true))
      ⊎ IsNextFree used counter (search_from used counter offset rounds)
unfolding search_from
search_from-cases used counter offset zero seen e = inl (refl, λ n l u. seen n l (omega arith))
search_from-cases used counter offset (suc rounds) seen e =
    elim (Bool-cases (used ((counter + offset) % packet_ids + 1))) [
      | inl h ↦ rw h (
          search_from-cases used counter (offset + 1) rounds
            (λ n l u. elim (or_last n (counter + offset) (omega arith)) [
              | inl before ↦ seen n l before
              | inr last ↦ ap (λ k. used (id_of k)) last ∙ ap used (id_of-next counter offset) ∙ h
            ])
            (omega arith))
      | inr h ↦ rw h (
          inr (record {
            later = omega arith;
            in_cycle = omega arith;
            free = ap used (id_of-next counter offset) ∙ h;
            first = λ n l u. seen n l (omega arith);
          }))
    ]

-- Every ID is the one of some counter of the next cycle.
counter_of :
    (counter id : ℕ)
    → 1 ≤ id
    → id ≤ packet_ids
    → (n : ℕ) × (counter < n) × (n ≤ counter + packet_ids) × (id_of n ≡ id)
counter_of counter id l u = (
  counter + (id - 1 + packet_ids - counter % packet_ids) % packet_ids + 1,
  omega arith,
  omega arith,
  omega arith,
)

-- Either test of the search, put together.
or_full :
    (is_full : Bool) (P : Type 0) (used : ℕ → Bool) (counter next : ℕ)
    → (is_full ≡ true → P)
    → ((next ≡ 0) × ((n : ℕ) → counter < n → n ≤ counter + packet_ids → used (id_of n) ≡ true))
      ⊎ IsNextFree used counter next
    → (((if is_full then 0 else next) ≡ 0)
        × (P ⊎ ((id : ℕ) → 1 ≤ id → id ≤ packet_ids → used id ≡ true)))
      ⊎ IsNextFree used counter (if is_full then 0 else next)
or_full true P used counter next p found = inl (refl, inl (p refl))
or_full false P used counter next p (inr is_next) = inr is_next
or_full false P used counter next p (inl (e, all)) = inl (
  e,
  inr λ id l u.
      let (n, after, within, same) = counter_of counter id l u in
      sym (ap used same) ∙ all n after within,
)

full_reason :
    (prefixed : Bool) (fields : ℕ)
    → not prefixed && leb packet_ids fields ≡ true
    → (prefixed ≡ false) × (packet_ids ≤ fields)
full_reason false fields h = (refl, leb→le packet_ids fields h)
full_reason true fields h = ground arith

-- x
pub next_counter_lem :
    (prefixed : Bool) (fields : ℕ) (used : ℕ → Bool) (counter : ℕ)
    → let next = next_offline_packet_counter prefixed fields used counter in
      ((next ≡ 0)
        × (((prefixed ≡ false) × (packet_ids ≤ fields))
            ⊎ ((id : ℕ) → 1 ≤ id → id ≤ packet_ids → used id ≡ true)))
      ⊎ IsNextFree used counter next
unfolding next_offline_packet_counter
next_counter_lem prefixed fields used counter =
    or_full (not prefixed && leb packet_ids fields) ((prefixed ≡ false) × (packet_ids ≤ fields))
      used counter (search_from used counter 0 packet_ids) (full_reason prefixed fields)
      (search_from-cases used counter 0 packet_ids (λ n l u. ground arith) refl)
