-- ===== src/Examples/Sse.antt =====
-- internal/SSE/broker.go at concrete inputs.
use pdf_generator.Prelude.{Bool-cases, ◌≡◌, inl, inr, refl, false, List, [], some, arith}
use pdf_generator.Prelude.Int.{pos}
use pdf_generator.Go.{ok}
use pdf_generator.Domain.{JobEvent}
use pdf_generator.Sse.Broker.{
  Client, Broker, members, new_broker, new_client, register, count_up, subscribe, broadcast,
}
use pdf_generator.Sse.Delivery.{Open, Delivered, broadcast-Delivered}
use pdf_generator.Sse.System.{
  Sys, created, registered, live, at_phase, initial, Reach, here, next, admit, insert, count, start,
}
use pdf_generator.Sse.Safety.{no_send_on_closed}
use pdf_generator.Sse.Listen.{IsServing}
use pdf_generator.World.{Outside}
use text.Mathlib.Text.{◌==◌ as str_eq}
use pdf_generator.Sse.Limit.{limit_exceeded}
use pdf_generator.Examples.Samples.{event, outside}

-- One subscriber, "ann", with a buffer of two events.
abbrev pub one_client : Broker
unfolding new_broker new_client register count_up subscribe
one_client = (subscribe (new_broker (pos 2) 2) "ann").1

pub one_client-Open : Open one_client (members (one_client.clients "ann"))
unfolding new_broker new_client register count_up subscribe
one_client-Open c m = elim m [ inl here_ ↦ rw here_ refl | inr gone ↦ absurd gone ]

broadcast-Delivered_example :
    (b' : Broker) × (broadcast one_client event ≡ some b')
    × Delivered event (members (one_client.clients "ann")) one_client b'
unfolding new_broker new_client register count_up subscribe
broadcast-Delivered_example = broadcast-Delivered one_client event ((λ m. m), tt) one_client-Open

abbrev waiting : List JobEvent → Client
waiting es = record { user_id = "ann"; events = es; done = false; events_closed = false }

-- The subscriber's way into the map, and the start of a broadcast to it.
abbrev admitted : Sys
unfolding new_broker new_client
admitted = let s = initial (pos 2) 2 in at_phase s s.broker.next (new_client s.broker "ann") created

abbrev inserted : Sys
unfolding new_broker new_client register
inserted = at_phase admitted 0 (register admitted.broker 0) registered

abbrev counted : Sys
unfolding new_broker new_client register count_up
counted = at_phase inserted 0 (count_up inserted.broker) live

abbrev pub serving : Sys
unfolding new_broker new_client register count_up
serving = record counted { sending = some (event, members (counted.broker.clients event.user_id)) }

pub serving-Reach : Reach (initial (pos 2) 2) serving
unfolding new_broker new_client register count_up
serving-Reach =
    next
      (next (next (next here (admit (initial (pos 2) 2) "ann" refl)) (insert admitted 0 refl refl))
        (count inserted 0 refl))
      (start counted event refl)

no_send_on_closed_example :
    ((serving.broker.store 0).events_closed ≡ false) × ((serving.broker.store 0).user_id ≡ "ann")
unfolding new_broker new_client register count_up
no_send_on_closed_example =
    no_send_on_closed (pos 2) 2 {s = serving} {e = event} {c = 0} {cs = []} serving-Reach refl

limit_exceeded_example :
    (s : Sys) × Reach (initial (pos 1) 8) s
    × (s.broker.active ≡ pos 3)
    × (s.broker.max_connections ≡ pos 1)
limit_exceeded_example = limit_exceeded 1 8 3 (omega arith) (omega arith)

pub one_client-IsServing : IsServing one_client
unfolding new_broker new_client register count_up subscribe
one_client-IsServing = record {
  distinct = λ user_id. elim (Bool-cases (str_eq "ann" user_id)) [
    | inl same ↦ rw same ((λ m. m), tt)
    | inr different ↦ rw different tt
  ];
  opened = λ user_id. elim (Bool-cases (str_eq "ann" user_id)) [
    | inl same ↦ rw same (λ c m. one_client-Open c m)
    | inr different ↦ rw different (λ c m. absurd m)
  ];
}

-- Every message is the event.
abbrev announcing : Outside
announcing = record outside { unmarshal_event = λ _. ok event }
