-- ===== src/Sse/Listen.antt =====
-- `Start` and the loop of `listenEvents` over what it would receive.
use pdf_generator.Prelude.{
  ℕ, String, ◌≡◌, refl, ◌∙◌, ap, List, [], ◌∷◌, Option, none, some, arith, ◌⊎◌, inl, inr,
}
use pdf_generator.Go.{Result, ok, err}
use pdf_generator.Domain.{Bytes, JobEvent}
use pdf_generator.World.{Outside, M}
use pdf_generator.Queue.Connection.{RabbitMq}
use pdf_generator.Queue.Consume.{consume_events}
use pdf_generator.Sse.Broker.{Client, Broker, members, offer, broadcast}
use pdf_generator.Sse.Delivery.{In, Distinct, Open, Offered, broadcast-Offered}

-- What the `select` receives: the end of the context, the end of the messages, or a message.
pub data Notice : Type 0 where
  stopped messages_closed : Notice
  message : Bytes → Notice

-- A message that is no event is passed over; `none` is a panic of `broadcast`.
unfoldable pub receive_event : Result JobEvent → Broker → Option Broker
receive_event (err e) b = some b
receive_event (ok event) b = broadcast b event

unfoldable pub listen_events : Outside → List Notice → Broker → Option Broker
listen_events o [] b = some b
listen_events o (stopped ∷ rest) b = some b
listen_events o (messages_closed ∷ rest) b = some b
listen_events o (message body ∷ rest) b = elim (receive_event (o.unmarshal_event body) b) [
  | none ↦ none
  | some b' ↦ listen_events o rest b'
]

-- `Start` up to the goroutine: the messages, or the error.
unfoldable pub start_broker : Outside → RabbitMq → M (Result String)
start_broker o rmq = consume_events o rmq

-- Every client of the map is open and stands once in its set.
pub record IsServing (b : Broker) : Type 0 where
  pub distinct : (user_id : String) → Distinct (members (b.clients user_id))
  pub opened : (user_id : String) → Open b (members (b.clients user_id))

pub In-cases : (c : ℕ) (xs : List ℕ) → In c xs ⊎ (In c xs → ⊥)
In-cases c [] = inr (λ h. h)
In-cases c (x ∷ xs) = ground (arith, In-cases c xs)

offer-keeps :
    (size : ℕ) (e : JobEvent) (c c' : Client)
    → offer size e c ≡ some c'
    → c'.events_closed ≡ c.events_closed
unfolding offer
offer-keeps size e c c' h = ground arith

Offered-keeps :
    (e : JobEvent) (cs : List ℕ) (b b' : Broker) (c : ℕ)
    → Offered e cs b b'
    → (b'.store c).events_closed ≡ (b.store c).events_closed
Offered-keeps e cs b b' c offered = elim (In-cases c cs) [
  | inl inside ↦ offer-keeps _ _ _ _ (offered.inside c inside)
  | inr outside ↦ ap (λ (client : Client). client.events_closed) (offered.elsewhere c outside)
]

Offered-IsServing :
    (e : JobEvent) (cs : List ℕ) (b b' : Broker) → Offered e cs b b' → IsServing b → IsServing b'
Offered-IsServing e cs b b' offered v = record {
  distinct = λ user_id. rw offered.same_clients (v.distinct user_id);
  opened = λ user_id c inside.
      Offered-keeps e cs b b' c offered ∙ v.opened user_id c (rw offered.same_clients at inside);
}

receive_event-serves :
    (event : Result JobEvent) (b : Broker)
    → IsServing b
    → (b' : Broker) × (receive_event event b ≡ some b')
      × IsServing b'
      × (b'.clients ≡ b.clients)
      × (b'.active ≡ b.active)
unfolding receive_event
receive_event-serves (err e) b v = (b, refl, v, refl, refl)
receive_event-serves (ok e) b v =
    let (b', sent, offered) = broadcast-Offered b e (v.distinct e.user_id) (v.opened e.user_id) in
    (b', sent, Offered-IsServing e _ b b' offered v, offered.same_clients, offered.same_active)

-- Where every client of the map is open and stands once in its set, the loop ends without a panic
-- whatever it receives, also messages that are no events; the map and the count are as before, and
-- every client is still open.
pub listen_events-serves :
    (o : Outside) (notices : List Notice) (b : Broker)
    → IsServing b
    → (b' : Broker) × (listen_events o notices b ≡ some b')
      × IsServing b'
      × (b'.clients ≡ b.clients)
      × (b'.active ≡ b.active)
unfolding listen_events
listen_events-serves o [] b v = (b, refl, v, refl, refl)
listen_events-serves o (stopped ∷ rest) b v = (b, refl, v, refl, refl)
listen_events-serves o (messages_closed ∷ rest) b v = (b, refl, v, refl, refl)
listen_events-serves o (message body ∷ rest) b v =
    let (b', received, v', same_map, same_count) =
      receive_event-serves (o.unmarshal_event body) b v in
    let (b'', ended, v'', map', count') = listen_events-serves o rest b' v' in
    (b'', rw (received, listen_events) ended, v'', map' ∙ same_map, count' ∙ same_count)
