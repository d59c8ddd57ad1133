-- ===== src/Worker/Publications.antt =====
-- What processing a delivery may publish: events, a retry one level up, or the dead letter.
use Prim.Native.String.{◌++◌}
use pdf_generator.Prelude.{
  ℕ, String, ◌≡◌, refl, false, Option, none, some, arith, ◌⊎◌, inl, inr, ◌||◌,
}
use pdf_generator.Prelude.Int.{pos, ◌≤ℤ◌, leb_ℤ, ltb_ℤ}
use pdf_generator.Go.{GoError, Result, ok, err, Failure, other, show_int}
use pdf_generator.Domain.{JobStatus, JobMessage, Bytes}
use pdf_generator.World.Amqp.{Publication}
use pdf_generator.World.{PdfData, Outside, Act, published, ack, clock, pure}
use pdf_generator.World.Extends.{same, more, Only, Only-pure, Only-if, Only-bind, Only-then}
use pdf_generator.Pdf.Generate.{draw_and_write, generate_checked, generate_parsed, generate}
use pdf_generator.Repository.Quiet.{Stays}
use pdf_generator.Queue.Topology.{retry_queue_name}
use pdf_generator.Queue.Publish.{send, publish_event, publish_to_retry, publish_to_dlq}
use pdf_generator.Worker.Processor.{
  job_event, announce_body, announce, report_completed, report_generated, process_started, process,
  parse_message,
}
use pdf_generator.Worker.Pool.{
  Pool, Delivery, mark_failed, report_sent, send_retry_body, send_dlq_body, send_to_retry, give_up,
  next_retry, handle_failure, settle, process_parsed, process_message,
}

module _ (o : Outside) (p : Pool) (msg : JobMessage) where
  -- The message one retry later, to the delay queue of that retry.
  pub record IsRetry (q : Publication) : Type 0 where
    pub low : pos 1 ≤ℤ next_retry msg
    pub high : next_retry msg ≤ℤ pos 3
    pub allowed : next_retry msg ≤ℤ p.max_retries
    pub exchange : q.exchange ≡ p.rmq.cfg.job_exchange
    pub key : q.key ≡ retry_queue_name p.rmq.cfg (next_retry msg)
    pub body : o.marshal_message (record msg { retry_count = next_retry msg }) ≡ ok q.body

  -- The message as it came, to the dead letter queue.
  pub record IsDeadLetter (q : Publication) : Type 0 where
    pub exhausted : leb_ℤ (next_retry msg) p.max_retries ≡ false
    pub exchange : q.exchange ≡ p.rmq.cfg.job_exchange
    pub key : q.key ≡ p.rmq.cfg.job_dlq
    pub body : o.marshal_message msg ≡ ok q.body

  abbrev pub IsExpected : Act → Type 0
  IsExpected (published q _) =
      (q.exchange ≡ p.processor.rmq.cfg.event_exchange) ⊎ IsRetry q ⊎ IsDeadLetter q
  IsExpected _ = Unit

  announce_body-Only : (r : Result Bytes) → Only IsExpected (announce_body o p.processor r)
  unfolding announce_body publish_event
  announce_body-Only (err e) = Only-pure _
  announce_body-Only (ok body) = record { at = λ log. more _ (inl refl) (more _ tt same) }

  announce-Only :
      (job_id user_id : String) (status : JobStatus) (file_path err_msg : Option String)
      → Only IsExpected (announce o p.processor job_id user_id status file_path err_msg)
  unfolding announce
  announce-Only job_id user_id status file_path err_msg =
      Only-bind {m = clock o} (record { at = λ log. more _ tt same })
        (λ now.
          announce_body-Only
            (o.marshal_event (job_event job_id user_id status file_path err_msg now)))

  generate_checked-Only :
      (d : PdfData) (f : Failure)
      → Only IsExpected (generate_checked o p.processor.generator msg.job_id msg.template_name d f)
  unfolding generate_checked draw_and_write
  generate_checked-Only d (some e) = Only-pure _
  generate_checked-Only d none = record { at = λ log. more _ tt same }

  generate_parsed-Only :
      (r : Result PdfData)
      → Only IsExpected (generate_parsed o p.processor.generator msg.job_id msg.template_name r)
  unfolding generate_parsed
  generate_parsed-Only (err e) = Only-pure _
  generate_parsed-Only (ok d) = generate_checked-Only d _

  in_range :
      (body : Bytes) {now : ℕ}
      → next_retry msg ≤ℤ p.max_retries
      → o.marshal_message (record msg { retry_count = next_retry msg }) ≡ ok body
      → (ltb_ℤ (next_retry msg) (pos 1) || ltb_ℤ (pos 3) (next_retry msg)) ≡ false
      → IsRetry (record {
        channel = p.rmq.ch;
        exchange = p.rmq.cfg.job_exchange;
        key = retry_queue_name p.rmq.cfg (next_retry msg);
        body = body;
        timestamp = now;
      })
  in_range body allowed e inside = record {
    low = ground arith;
    high = ground arith;
    allowed = allowed;
    exchange = refl;
    key = refl;
    body = e;
  }

  retry-Only :
      (body : Bytes)
      → next_retry msg ≤ℤ p.max_retries
      → o.marshal_message (record msg { retry_count = next_retry msg }) ≡ ok body
      → Only IsExpected (publish_to_retry o p.rmq (next_retry msg) body)
  unfolding publish_to_retry
  retry-Only body allowed e =
      Only-if (ltb_ℤ (next_retry msg) (pos 1) || ltb_ℤ (pos 3) (next_retry msg))
        {m = pure (some (other ("invalid retry level: " ++ show_int (next_retry msg))))}
        {n = send o p.rmq p.rmq.cfg.job_exchange (retry_queue_name p.rmq.cfg (next_retry msg)) body}
        (λ _. Only-pure _)
        λ inside. record {
          at = λ log. more _ (inr (inl (in_range body allowed e inside))) (more _ tt same);
        }

  dlq-Only :
      (body : Bytes)
      → leb_ℤ (next_retry msg) p.max_retries ≡ false
      → o.marshal_message msg ≡ ok body
      → Only IsExpected (publish_to_dlq o p.rmq body)
  unfolding publish_to_dlq
  dlq-Only body exhausted e = record {
    at = λ log.
        more _ (inr (inr (record { exhausted = exhausted; exchange = refl; key = refl; body = e })))
          (more _ tt same);
  }

  module _ (repo : Stays IsExpected p.repo)
      (processor_repo : Stays IsExpected p.processor.repo) where
    mark_failed-Only : (text : String) → Only IsExpected (mark_failed p msg.job_id text)
    mark_failed-Only text = Only-then (repo.update_status _ _ _ _) (Only-pure _)

    report_sent-Only : (f : Failure) → Only IsExpected (report_sent p msg f)
    unfolding report_sent
    report_sent-Only none = Only-pure _
    report_sent-Only (some e) = mark_failed-Only _

    send_retry_body-Only :
        (r : Result Bytes)
        → next_retry msg ≤ℤ p.max_retries
        → o.marshal_message (record msg { retry_count = next_retry msg }) ≡ r
        → Only IsExpected (send_retry_body o p (next_retry msg) msg r)
    unfolding send_retry_body
    send_retry_body-Only (err e) allowed h = mark_failed-Only _
    send_retry_body-Only (ok body) allowed h =
        Only-bind (retry-Only body allowed h) report_sent-Only

    send_dlq_body-Only :
        (r : Result Bytes)
        → leb_ℤ (next_retry msg) p.max_retries ≡ false
        → o.marshal_message msg ≡ r
        → Only IsExpected (send_dlq_body o p r)
    unfolding send_dlq_body
    send_dlq_body-Only (err e) exhausted h = Only-pure _
    send_dlq_body-Only (ok body) exhausted h = Only-then (dlq-Only body exhausted h) (Only-pure _)

    handle_failure-Only :
        (d : Delivery) (e : GoError) → Only IsExpected (handle_failure o p d msg e)
    unfolding handle_failure send_to_retry give_up
    handle_failure-Only d e =
        Only-then {m = ack o d.tag false} (record { at = λ log. more _ tt same })
          (Only-then (repo.increment_retry _) (
            Only-if _ (λ within. send_retry_body-Only _ (ground arith) refl)
              (λ exhausted. Only-then (mark_failed-Only _) (send_dlq_body-Only _ exhausted refl))))

    settle-Only : (d : Delivery) (f : Failure) → Only IsExpected (settle o p d msg f)
    unfolding settle
    settle-Only d (some e) = handle_failure-Only d e
    settle-Only d none = record { at = λ log. more _ tt same }

    report_completed-Only :
        (path : String) (f : Failure) → Only IsExpected (report_completed o p.processor msg path f)
    unfolding report_completed
    report_completed-Only path (some e) = Only-pure _
    report_completed-Only path none = Only-then (announce-Only _ _ _ _ _) (Only-pure _)

    report_generated-Only :
        (r : Result String) → Only IsExpected (report_generated o p.processor msg r)
    unfolding report_generated
    report_generated-Only (err e) =
        Only-then (processor_repo.update_status _ _ _ _)
          (Only-then (announce-Only _ _ _ _ _) (Only-pure _))
    report_generated-Only (ok path) =
        Only-bind (processor_repo.update_status _ _ _ _) (report_completed-Only path)

    process_started-Only : (f : Failure) → Only IsExpected (process_started o p.processor msg f)
    unfolding process_started generate
    process_started-Only (some e) = Only-pure _
    process_started-Only none =
        Only-then (announce-Only _ _ _ _ _)
          (Only-bind (generate_parsed-Only _) report_generated-Only)

    process-Only : Only IsExpected (process o p.processor msg)
    unfolding process
    process-Only = Only-bind (processor_repo.update_status _ _ _ _) process_started-Only

    -- Where the repositories publish nothing else, processing a delivery that parses publishes at
    -- most messages to the event exchange, the message with its retry count one higher to the delay
    -- queue of that count (which then lies between 1 and 3 and within the retries allowed), and the
    -- message unchanged to the dead letter queue (where that count exceeds the retries allowed),
    -- whatever the outside answers.
    pub process_message-publishes :
        (d : Delivery) → parse_message o d.body ≡ ok msg → Only IsExpected (process_message o p d)
    unfolding process_message process_parsed
    process_message-publishes d parsed = rw parsed (Only-bind process-Only (settle-Only d))
