-- ===== src/Sse/Announced.antt =====
-- A change of a job's status on its way from the worker to the streams of the job's owner.
use pdf_generator.Prelude.{
  ℕ, String, ◌<◌, ◌≡◌, refl, ap, false, [], ◌∷◌, ◌++◌, Option, some, arith, length,
}
use pdf_generator.Go.{ok, Failure}
use pdf_generator.Domain.{JobEvent, JobStatus, Bytes}
use pdf_generator.World.Amqp.{Publication}
use pdf_generator.World.{Outside, Log, published}
use pdf_generator.Queue.Publish.{publish_event}
use pdf_generator.Worker.Processor.{PdfProcessor, job_event, announce_body, announce}
use pdf_generator.Sse.Broker.{Client, Broker, members, offer, broadcast}
use pdf_generator.Sse.Delivery.{In, broadcast-Offered}
use pdf_generator.Sse.Listen.{IsServing, message, receive_event, listen_events}

-- The last entry of a log is a publication to an exchange.
pub record IsSent (exchange : String) (body : Bytes) (log : Log) : Type 0 where
  pub publication : Publication
  pub answer : Failure
  pub before : Log
  pub last : log ≡ published publication answer ∷ before
  pub to : publication.exchange ≡ exchange
  pub content : publication.body ≡ body

announce-IsSent :
    (o : Outside) (p : PdfProcessor) (job_id user_id : String) (status : JobStatus)
    (file_path err_msg : Option String) (log : Log) (body : Bytes)
    → o.marshal_event (job_event job_id user_id status file_path err_msg (o.now log)) ≡ ok body
    → IsSent p.rmq.cfg.event_exchange body
        (announce o p job_id user_id status file_path err_msg log).1
unfolding announce announce_body publish_event
announce-IsSent o p job_id user_id status file_path err_msg log body h =
    rw h
      (record { publication = _; answer = _; before = _; last = refl; to = refl; content = refl })

offer-room :
    (size : ℕ) (e : JobEvent) (c c' : Client)
    → c.done ≡ false
    → length c.events < size
    → offer size e c ≡ some c'
    → c'.events ≡ c.events ++ e ∷ []
unfolding offer
offer-room size e c c' here room h = ground arith

received_event :
    (o : Outside) (e : JobEvent) (body : Bytes) (b b' : Broker)
    → o.unmarshal_event body ≡ ok e
    → broadcast b e ≡ some b'
    → receive_event (o.unmarshal_event body) b ≡ some b'
unfolding receive_event
received_event o e body b b' read sent = rw read sent

heard :
    (o : Outside) (body : Bytes) (b b' : Broker)
    → receive_event (o.unmarshal_event body) b ≡ some b'
    → listen_events o (message body ∷ []) b ≡ some b'
unfolding listen_events
heard o body b b' received = rw (received, listen_events) refl

-- Where the codec reads what it has written for this event, every client of the map is open and
-- stands once in its set, and a client of the job's user has not left and has room: what the worker
-- publishes on a change of the status goes to the exchange of events, and when the broker receives it the
-- event stands behind those that wait for that client, and no other user's client is touched.
pub announce-reaches :
    (o : Outside) (p : PdfProcessor) (b : Broker) (c : ℕ) (job_id user_id : String)
    (status : JobStatus) (file_path err_msg : Option String) (log : Log) (body : Bytes)
    (e : JobEvent)
    → e ≡ job_event job_id user_id status file_path err_msg (o.now log)
    → o.marshal_event e ≡ ok body
    → o.unmarshal_event body ≡ ok e
    → IsServing b
    → In c (members (b.clients user_id))
    → (b.store c).done ≡ false
    → length (b.store c).events < b.client_buffer
    → IsSent p.rmq.cfg.event_exchange body
        (announce o p job_id user_id status file_path err_msg log).1
      × ((b' : Broker) × (listen_events o (message body ∷ []) b ≡ some b')
          × ((b'.store c).events ≡ (b.store c).events ++ e ∷ [])
          × ((x : ℕ) → (In x (members (b.clients user_id)) → ⊥) → b'.store x ≡ b.store x))
announce-reaches o p b c job_id user_id status file_path err_msg log body e is_event written read v
      inside here room =
    let owner : e.user_id ≡ user_id = ap (λ x. x.user_id) is_event in
    let (b', sent, offered) = broadcast-Offered b e (v.distinct e.user_id) (v.opened e.user_id) in
    (
      announce-IsSent o p job_id user_id status file_path err_msg log body
          (rw (← is_event) written),
      (
        b',
        heard o body b b' (received_event o e body b b' read sent),
        offer-room b.client_buffer e _ _ here room (offered.inside c (rw owner inside)),
        λ x outside. offered.elsewhere x (rw owner outside),
      ),
    )
