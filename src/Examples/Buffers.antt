-- ===== src/Examples/Buffers.antt =====
-- Buffers of numbers in place of requests.
use keel_mqtt_gateway.Prelude.{ℕ, zero, suc, ◌≡◌, refl, inl, true, false, [], ◌∷◌, arith}
use keel_mqtt_gateway.Connector.Buffer.{Buffer, push_locked, next_round}
use keel_mqtt_gateway.Connector.Buffer.Fifo.{
  pushes, nexts, closes, History, run, IsFifo, run-IsFifo,
}
use keel_mqtt_gateway.Connector.Buffer.Wakeup as Wakeup
use keel_mqtt_gateway.Connector.Buffer.Wakeup.{
  System, looping, waiting, Reach, ReachWaking, here, next, IsAwake, Reach-IsAwake, no_lost_wakeup,
}
use keel_mqtt_gateway.Connector.Buffered.{Dropped, Response, err, response}

abbrev full : Buffer ℕ
full = record { items = 1 ∷ 2 ∷ []; capacity = 2; closed = false; signal = true }

abbrev full_history : History ℕ
full_history = record { buffer = full; accepted = 1 ∷ 2 ∷ []; left = [] }

full_history-IsFifo : IsFifo full_history
full_history-IsFifo = record { room = omega arith; bounded = omega arith; in_order = refl }

run-IsFifo_example : IsFifo (run (pushes 3 ∷ nexts ∷ closes ∷ nexts ∷ []) full_history)
run-IsFifo_example =
    run-IsFifo (pushes 3 ∷ nexts ∷ closes ∷ nexts ∷ []) full_history full_history-IsFifo

abbrev at_start : System ℕ
at_start = record {
  buffer = record { items = []; capacity = 1; closed = false; signal = false };
  unsent = 0;
  consumer = looping;
}

abbrev after_push : System ℕ
after_push = record {
  buffer = record { items = 7 ∷ []; capacity = 1; closed = false; signal = false };
  unsent = 1;
  consumer = waiting;
}

-- The consumer finds nothing and waits; a producer queues 7 and has not yet signalled.
start_to_push : Reach at_start after_push
unfolding push_locked next_round
start_to_push = next (next here (Wakeup.Step.checks refl)) (Wakeup.Step.pushes 7)

at_start-IsAwake : IsAwake at_start
at_start-IsAwake = inl (λ e. ground arith)

no_lost_wakeup_example :
    (u : System ℕ) × ReachWaking after_push u × (u.consumer ≡ looping) × (u.buffer.items ≡ 7 ∷ [])
no_lost_wakeup_example =
    no_lost_wakeup at_start after_push at_start-IsAwake start_to_push refl (inl (λ e. ground arith))

abbrev no_drops : Dropped
no_drops = record { buffer_full = 0; forward_error = 0 }

-- The downstream fails once and then accepts.
abbrev second_time : ℕ → Response
second_time n = elim n [ zero ↦ err | suc k ↦ response true ]
