-- ===== src/Worker/Settlement.antt =====
-- Acknowledgements: a delivery that is processed is settled exactly once, on every path.
use pdf_generator.Prelude.{
  ℕ, suc, String, ◌≡◌, Bool, true, false, Option, none, some, List, [], ◌∷◌, arith, count_if, ◌==◌,
  ◌+◌, refl,
}
use pdf_generator.Prelude.Int.{ℤ}
use pdf_generator.Go.{GoError, Result, ok, err, Failure}
use pdf_generator.Domain.{JobMessage, Bytes}
use pdf_generator.World.{Outside, Act, acked, nacked, Log, ack, nack, clocked, published, wrote_pdf}
use pdf_generator.World.Amqp.{Publication}
use pdf_generator.World.Drawing.{Draw}
use pdf_generator.Queue.Connection.{RabbitMq}
use pdf_generator.Domain.{JobStatus}
use pdf_generator.World.Counting.{
  Silent, Once, Silent-pure, Silent-if, Silent-bind, Silent-then, Once-then_first, Once-bind_last,
}
use pdf_generator.Pdf.Generate.{
  Generator, draw_and_write, generate_checked, generate_parsed, generate,
}
use pdf_generator.Repository.Quiet.{IsQuiet}
use pdf_generator.Queue.Publish.{publish_event, publish_to_retry, publish_to_dlq}
use pdf_generator.Worker.Processor.{PdfProcessor, announce_body, announce, parse_message}
use pdf_generator.Worker.Silence.{IsQuietProcessor, process-Silent}
use pdf_generator.Worker.Pool.{
  Pool, Delivery, mark_failed, report_sent, send_retry_body, send_dlq_body, send_to_retry, give_up,
  handle_failure, settle, process_parsed, process_message, Signal, cancelled, channel_closed,
  delivered, worker,
}

-- The acknowledgement, positive or negative, of one delivery, and of any.
abbrev pub settles : ℕ → Act → Bool
settles tag (acked t _ _) = t == tag
settles tag (nacked t _ _ _) = t == tag
settles tag _ = false

abbrev pub is_settlement : Act → Bool
is_settlement (acked _ _ _) = true
is_settlement (nacked _ _ _ _) = true
is_settlement _ = false

-- A kind of acts that holds one settlement of a delivery and nothing else that a worker does.
pub record IsSettling (kind : Act → Bool) (tag : ℕ) : Type 0 where
  pub on_ack : (b : Bool) (f : Failure) → kind (acked tag b f) ≡ true
  pub on_nack : (b c : Bool) (f : Failure) → kind (nacked tag b c f) ≡ true

module _ (o : Outside) (kind : Act → Bool) (p : Pool) (d : Delivery) (quiet : IsQuiet kind p.repo)
    (processor : IsQuietProcessor o kind p.processor)
    (retry : (level : ℤ) (body : Bytes) → Silent kind (publish_to_retry o p.rmq level body))
    (dlq : (body : Bytes) → Silent kind (publish_to_dlq o p.rmq body))
    (settling : IsSettling kind d.tag) where
  ack-Once : (b : Bool) → Once kind (ack o d.tag b)
  ack-Once b = record { at = λ log. simp (settling.on_ack) }

  nack-Once : (b c : Bool) → Once kind (nack o d.tag b c)
  nack-Once b c = record { at = λ log. simp (settling.on_nack) }

  mark_failed-Silent : (job_id text : String) → Silent kind (mark_failed p job_id text)
  mark_failed-Silent job_id text = Silent-then (quiet.update_status _ _ _ _) (Silent-pure _)

  report_sent-Silent : (msg : JobMessage) (f : Failure) → Silent kind (report_sent p msg f)
  unfolding report_sent
  report_sent-Silent msg none = Silent-pure _
  report_sent-Silent msg (some e) = mark_failed-Silent _ _

  send_retry_body-Silent :
      (next : ℤ) (msg : JobMessage) (body : Result Bytes)
      → Silent kind (send_retry_body o p next msg body)
  unfolding send_retry_body
  send_retry_body-Silent next msg (err e) = mark_failed-Silent _ _
  send_retry_body-Silent next msg (ok body) = Silent-bind (retry next body) (report_sent-Silent msg)

  send_dlq_body-Silent : (body : Result Bytes) → Silent kind (send_dlq_body o p body)
  unfolding send_dlq_body
  send_dlq_body-Silent (err e) = Silent-pure _
  send_dlq_body-Silent (ok body) = Silent-then (dlq body) (Silent-pure _)

  handle_failure-Once : (msg : JobMessage) (e : GoError) → Once kind (handle_failure o p d msg e)
  unfolding handle_failure send_to_retry give_up
  handle_failure-Once msg e = Once-then_first (ack-Once false) (
      Silent-then (quiet.increment_retry _) (
        Silent-if _ (send_retry_body-Silent _ msg _)
          (Silent-then (mark_failed-Silent _ _) (send_dlq_body-Silent _))))

  settle-Once : (msg : JobMessage) (f : Failure) → Once kind (settle o p d msg f)
  unfolding settle
  settle-Once msg none = Once-then_first (ack-Once false) (Silent-pure _)
  settle-Once msg (some e) = handle_failure-Once msg e

  process_parsed-Once : (r : Result JobMessage) → Once kind (process_parsed o p d r)
  unfolding process_parsed
  process_parsed-Once (err e) = Once-then_first (nack-Once false false) (Silent-pure _)
  process_parsed-Once (ok msg) =
      Once-bind_last (process-Silent o p.processor processor msg) (settle-Once msg)

  process_message-Once : Once kind (process_message o p d)
  unfolding process_message
  process_message-Once = process_parsed-Once (parse_message o d.body)

-- The kinds of the two theorems below hold no publication, no file and nothing of the database.
pub record IsWorkerKind (kind : Act → Bool) : Type 0 where
  pub no_clock : (t : ℕ) → kind (clocked t) ≡ false
  pub no_publish : (q : Publication) (f : Failure) → kind (published q f) ≡ false
  pub no_pdf : (path : String) (ops : List Draw) (f : Failure) → kind (wrote_pdf path ops f) ≡ false

module _ (o : Outside) (kind : Act → Bool) (k : IsWorkerKind kind) where
  announce-Silent :
      (p : PdfProcessor) (job_id user_id : String) (status : JobStatus)
      (file_path err_msg : Option String)
      → Silent kind (announce o p job_id user_id status file_path err_msg)
  unfolding announce announce_body publish_event
  announce-Silent p job_id user_id status file_path err_msg = record {
    at = λ log. grind (arith, k.no_clock, k.no_publish);
  }

  generate-Silent :
      (g : Generator) (job_id template : String) (payload : Bytes)
      → Silent kind (generate o g job_id template payload)
  unfolding generate generate_parsed generate_checked draw_and_write
  generate-Silent g job_id template payload = record { at = λ log. grind (arith, k.no_pdf) }

  retry-Silent :
      (r : RabbitMq) (level : ℤ) (body : Bytes) → Silent kind (publish_to_retry o r level body)
  unfolding publish_to_retry
  retry-Silent r level body = record { at = λ log. grind (arith, k.no_clock, k.no_publish) }

  dlq-Silent : (r : RabbitMq) (body : Bytes) → Silent kind (publish_to_dlq o r body)
  unfolding publish_to_dlq
  dlq-Silent r body = record { at = λ log. grind (arith, k.no_clock, k.no_publish) }

  pub message-Once :
      (p : Pool) (d : Delivery)
      → IsQuiet kind p.repo
      → IsQuiet kind p.processor.repo
      → IsSettling kind d.tag
      → Once kind (process_message o p d)
  message-Once p d q q' s =
      process_message-Once o kind p d q
        (record { repo = q'; announce = announce-Silent p.processor; generate = generate-Silent _ })
        (retry-Silent p.rmq) (dlq-Silent p.rmq) s

-- Where the two repositories settle nothing themselves, processing a delivery adds exactly one
-- acknowledgement or rejection of its tag to the log, whatever the outside answers.
pub process_message-settles :
    (o : Outside) (p : Pool) (d : Delivery) (log : Log)
    → IsQuiet (settles d.tag) p.repo
    → IsQuiet (settles d.tag) p.processor.repo
    → count_if (settles d.tag) (process_message o p d log).1 ≡ suc (count_if (settles d.tag) log)
process_message-settles o p d log q q' =
    (message-Once o (settles d.tag)
        (record { no_clock = λ t. refl; no_publish = λ q f. refl; no_pdf = λ path ops f. refl }) p d
        q q' (record { on_ack = λ b f. ground arith; on_nack = λ b c f. ground arith })).at
      log

-- The deliveries that a worker takes before the context or the channel ends.
abbrev pub taken : List Signal → ℕ
taken [] = 0
taken (cancelled ∷ rest) = 0
taken (channel_closed ∷ rest) = 0
taken (delivered d ∷ rest) = suc (taken rest)

-- Where the two repositories settle nothing themselves, a worker adds exactly as many settlements
-- to the log as it takes deliveries before its first end.
pub worker-settles :
    (o : Outside) (p : Pool) (signals : List Signal) (log : Log)
    → IsQuiet is_settlement p.repo
    → IsQuiet is_settlement p.processor.repo
    → count_if is_settlement (worker o p signals log).1 ≡ taken signals + count_if is_settlement log
unfolding worker
worker-settles o p [] log q q' = omega arith
worker-settles o p (cancelled ∷ rest) log q q' = omega arith
worker-settles o p (channel_closed ∷ rest) log q q' = omega arith
worker-settles o p (delivered d ∷ rest) log q q' = omega (
  arith,
  worker-settles o p rest (process_message o p d log).1 q q',
  (message-Once o is_settlement
        (record { no_clock = λ t. refl; no_publish = λ q f. refl; no_pdf = λ path ops f. refl }) p d
        q q' (record { on_ack = λ b f. refl; on_nack = λ b c f. refl })).at
      log,
)
