-- ===== src/Examples/Streams.antt =====
-- internal/SSE/broker.go: what reaches a stream, and in which order, at concrete inputs.
use pdf_generator.Prelude.{
  String, ℕ, ◌≡◌, refl, inl, inr, none, some, [], ◌∷◌, ◌++◌, keep_if, Sublistᴰ, arith,
}
use pdf_generator.Prelude.Int.{pos, int_add}
use pdf_generator.Go.{ok}
use pdf_generator.Domain.{JobEvent, completed}
use pdf_generator.World.{Outside}
use pdf_generator.Worker.Processor.{announce}
use pdf_generator.Sse.Broker.{
  Broker, members, new_broker, new_client, close_done, register, count_up, subscribe, offer,
  offer_all, broadcast, receive,
}
use pdf_generator.Sse.Delivery.{In, Open}
use pdf_generator.Sse.System.{Sys, Reach, next, initial, gone, leave, send, finish, take}
use pdf_generator.Sse.Listen.{message, listen_events}
use pdf_generator.Sse.Order.{broadcast-order}
use pdf_generator.Sse.History.{broadcast_on, received_on, is_for}
use pdf_generator.Sse.InOrder.{received-in_order}
use pdf_generator.Sse.Progress.{unsubscribe-ends}
use pdf_generator.Sse.Announced.{IsSent, announce-reaches}
use pdf_generator.Examples.Samples.{event, outside, pool}
use pdf_generator.Examples.Sse.{one_client, one_client-IsServing, serving, serving-Reach}

-- Two streams of "ann".
abbrev two_clients : Broker
unfolding new_broker new_client register count_up subscribe
two_clients = (subscribe one_client "ann").1

two_clients-Open : Open two_clients (1 ∷ 0 ∷ [])
unfolding new_broker new_client register count_up subscribe int_add
two_clients-Open c m = elim m [
  | inl last ↦ rw last refl
  | inr (inl first) ↦ rw first refl
  | inr (inr none_else) ↦ absurd none_else
]

broadcast-order_example : offer_all event (0 ∷ 1 ∷ []) two_clients ≡ broadcast two_clients event
unfolding new_broker new_client register count_up subscribe int_add
broadcast-order_example =
    broadcast-order two_clients event (0 ∷ 1 ∷ []) ((λ m. ground arith), ((λ m. m), tt))
      two_clients-Open ((λ m. ground arith), ((λ m. m), tt)) (λ c. ground arith)

-- The event is sent to the stream, which takes it.
abbrev streamed : (s : Sys) × Reach (initial (pos 2) 2) s
unfolding new_broker new_client register count_up offer receive
streamed = (
  _,
  next (next (next serving-Reach (send serving event 0 [] _ refl refl)) (finish _ event refl))
      (take _ 0 event _ refl),
)

received-in_order_example :
    Sublistᴰ
      (received_on 0 streamed.1 ++ (streamed.0.broker.store 0).events)
      (keep_if (is_for (streamed.0.broker.store 0).user_id) (broadcast_on streamed.1))
received-in_order_example = received-in_order (pos 2) 2 streamed.1 0

-- Every message is the event that the worker announces at the moment 0.
abbrev first_event : JobEvent
first_event = record event { timestamp = 0 }

abbrev hearing : Outside
hearing = record outside { unmarshal_event = λ _. ok first_event }

announce-reaches_example :
    IsSent "job_events" "event"
      (announce hearing pool.processor "job-1" "ann" completed (some "out/job-1.pdf") none []).1
    × ((b' : Broker) × (listen_events hearing (message "event" ∷ []) one_client ≡ some b')
        × ((b'.store 0).events ≡ (one_client.store 0).events ++ first_event ∷ [])
        × ((x : ℕ)
            → (In x (members (one_client.clients "ann")) → ⊥)
            → b'.store x ≡ one_client.store x))
unfolding new_broker new_client register count_up subscribe
announce-reaches_example =
    announce-reaches hearing pool.processor one_client 0 "job-1" "ann" completed
      (some "out/job-1.pdf") none [] "event" first_event refl refl refl one_client-IsServing
      (inl refl) refl (omega arith)

-- The stream is closed while the event is on its way.
abbrev leaving_run : (s : Sys) × Reach (initial (pos 2) 2) s
unfolding new_broker new_client register count_up close_done
leaving_run = (_, next serving-Reach (leave serving 0 refl))

unsubscribe-ends_example :
    (t : Sys) × Reach leaving_run.0 t
    × (t.phase 0 ≡ gone)
    × ((u : String) → In 0 (members (t.broker.clients u)) → ⊥)
unfolding close_done leaving_run
unsubscribe-ends_example = unsubscribe-ends (pos 2) 2 leaving_run.1 0 refl
