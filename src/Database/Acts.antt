-- ===== src/Database/Acts.antt =====
-- What the calls of the service and of the worker add to the log, for a property of acts that asks
-- nothing of any act but the statements.
use pdf_generator.Prelude.{String, List, Option, none, some, Bool, false, ◌||◌, ◌≡◌, refl}
use pdf_generator.Prelude.Int.{ℤ, pos, leb_ℤ, ltb_ℤ}
use pdf_generator.Go.{GoError, ValidationError, Result, ok, err, Failure}
use pdf_generator.Domain.{
  Job, JobStatus, pending, processing, completed, failed, JobMessage, Bytes, CreateJobRequest,
}
use pdf_generator.World.{Outside, Act, PdfData, clock, new_uuid, ack, nack}
use pdf_generator.World.Extends.{same, more, Only, Only-pure, Only-if, Only-bind, Only-then}
use pdf_generator.Database.Table.{is_statement}
use pdf_generator.Repository.{JobRepository}
use pdf_generator.Pdf.Generate.{
  Generator, draw_and_write, generate_checked, generate_parsed, generate,
}
use pdf_generator.Queue.Connection.{RabbitMq}
use pdf_generator.Queue.Publish.{
  send, publish_job, publish_event, publish_to_retry, publish_to_dlq, queue_size,
}
use pdf_generator.Worker.Processor.{
  PdfProcessor, job_event, announce_body, announce, report_completed, report_generated,
  process_started, process,
}
use pdf_generator.Worker.Pool.{
  Pool, Delivery, mark_failed, report_sent, send_retry_body, send_dlq_body, send_to_retry, give_up,
  next_retry, handle_failure, settle, process_parsed, process_message,
}
use pdf_generator.Service.PdfService.{
  PdfService, max_queue_size, new_job, report_queued, enqueue_body, enqueue, store_and_enqueue,
  check_size, create_valid, create_job,
}

-- A property that asks nothing of an act that is no statement.
abbrev pub IsFree : (Act → Type 0) → Type 0
IsFree P = (a : Act) → is_statement a ≡ false → P a

-- What the service and the worker ask of a repository: the four kinds of rows that they store.
pub record Stores (P : Act → Type 0) (repo : JobRepository) : Type 0 where
  pub to_pending : (job : Job) → job.status ≡ pending → Only P (repo.create job)
  pub to_processing : (id : String) → Only P (repo.update_status id processing none none)
  pub to_completed : (id path : String) → Only P (repo.update_status id completed (some path) none)
  pub to_failed : (id text : String) → Only P (repo.update_status id failed none (some text))
  pub increment_retry : (id : String) → Only P (repo.increment_retry id)

module _ {P : Act → Type 0} (free : IsFree P) where
  module _ (o : Outside) where
    clock-Only : Only P (clock o)
    clock-Only = record { at = λ log. more _ (free _ refl) same }

    send-Only :
        (r : RabbitMq) (exchange key : String) (body : Bytes) → Only P (send o r exchange key body)
    send-Only r exchange key body = record {
      at = λ log. more _ (free _ refl) (more _ (free _ refl) same);
    }

    publish_to_retry-Only :
        (r : RabbitMq) (level : ℤ) (body : Bytes) → Only P (publish_to_retry o r level body)
    unfolding publish_to_retry
    publish_to_retry-Only r level body =
        Only-if (ltb_ℤ level (pos 1) || ltb_ℤ (pos 3) level) (λ out. Only-pure _)
          (λ within. send-Only r _ _ body)

    announce_body-Only : (p : PdfProcessor) (r : Result Bytes) → Only P (announce_body o p r)
    unfolding announce_body publish_event
    announce_body-Only p (err e) = Only-pure _
    announce_body-Only p (ok body) = Only-then (send-Only p.rmq _ _ body) (Only-pure _)

    pub announce-Only :
        (p : PdfProcessor) (job_id user_id : String) (status : JobStatus)
        (file_path err_msg : Option String)
        → Only P (announce o p job_id user_id status file_path err_msg)
    unfolding announce
    announce-Only p job_id user_id status file_path err_msg = Only-bind clock-Only (λ now.
        announce_body-Only p
          (o.marshal_event (job_event job_id user_id status file_path err_msg now)))

    generate_checked-Only :
        (g : Generator) (job_id template : String) (d : PdfData) (f : Failure)
        → Only P (generate_checked o g job_id template d f)
    unfolding generate_checked draw_and_write
    generate_checked-Only g job_id template d (some e) = Only-pure _
    generate_checked-Only g job_id template d none = record {
      at = λ log. more _ (free _ refl) same;
    }

    generate_parsed-Only :
        (g : Generator) (job_id template : String) (r : Result PdfData)
        → Only P (generate_parsed o g job_id template r)
    unfolding generate_parsed
    generate_parsed-Only g job_id template (err e) = Only-pure _
    generate_parsed-Only g job_id template (ok d) = generate_checked-Only g job_id template d _

    pub send_dlq_body-Only : (p : Pool) (r : Result Bytes) → Only P (send_dlq_body o p r)
    unfolding send_dlq_body publish_to_dlq
    send_dlq_body-Only p (err e) = Only-pure _
    send_dlq_body-Only p (ok body) = Only-then (send-Only p.rmq _ _ body) (Only-pure _)

    -- The worker.
    module _ (p : PdfProcessor) (stores : Stores P p.repo) (msg : JobMessage) where
      report_completed-Only :
          (path : String) (f : Failure) → Only P (report_completed o p msg path f)
      unfolding report_completed
      report_completed-Only path (some e) = Only-pure _
      report_completed-Only path none = Only-then (announce-Only p _ _ _ _ _) (Only-pure _)

      report_generated-Only : (r : Result String) → Only P (report_generated o p msg r)
      unfolding report_generated
      report_generated-Only (err e) =
          Only-then (stores.to_failed _ _) (Only-then (announce-Only p _ _ _ _ _) (Only-pure _))
      report_generated-Only (ok path) =
          Only-bind (stores.to_completed _ _) (report_completed-Only path)

      process_started-Only : (f : Failure) → Only P (process_started o p msg f)
      unfolding process_started generate
      process_started-Only (some e) = Only-pure _
      process_started-Only none =
          Only-then (announce-Only p _ _ _ _ _)
            (Only-bind (generate_parsed-Only p.generator _ _ _) report_generated-Only)

      pub process-Only : Only P (process o p msg)
      unfolding process
      process-Only = Only-bind (stores.to_processing _) process_started-Only

    module _ (p : Pool) (stores : Stores P p.repo) (processor : Stores P p.processor.repo)
        (d : Delivery) where
      ack-Only : (b : Bool) → Only P (ack o d.tag b)
      ack-Only b = record { at = λ log. more _ (free _ refl) same }

      mark_failed-Only : (job_id text : String) → Only P (mark_failed p job_id text)
      mark_failed-Only job_id text = Only-then (stores.to_failed job_id text) (Only-pure _)

      report_sent-Only : (msg : JobMessage) (f : Failure) → Only P (report_sent p msg f)
      unfolding report_sent
      report_sent-Only msg none = Only-pure _
      report_sent-Only msg (some e) = mark_failed-Only _ _

      send_retry_body-Only :
          (next : ℤ) (msg : JobMessage) (r : Result Bytes) → Only P (send_retry_body o p next msg r)
      unfolding send_retry_body
      send_retry_body-Only next msg (err e) = mark_failed-Only _ _
      send_retry_body-Only next msg (ok body) =
          Only-bind (publish_to_retry-Only p.rmq next body) (report_sent-Only msg)

      handle_failure-Only : (msg : JobMessage) (e : GoError) → Only P (handle_failure o p d msg e)
      unfolding handle_failure send_to_retry give_up
      handle_failure-Only msg e = Only-then (ack-Only false) (
          Only-then (stores.increment_retry msg.job_id) (
            Only-if (leb_ℤ (next_retry msg) p.max_retries)
              (λ within. send_retry_body-Only (next_retry msg) msg _)
              (λ over. Only-then (mark_failed-Only _ _) (send_dlq_body-Only p _))))

      settle-Only : (msg : JobMessage) (f : Failure) → Only P (settle o p d msg f)
      unfolding settle
      settle-Only msg (some e) = handle_failure-Only msg e
      settle-Only msg none = Only-then (ack-Only false) (Only-pure _)

      process_parsed-Only : (r : Result JobMessage) → Only P (process_parsed o p d r)
      unfolding process_parsed
      process_parsed-Only (err e) =
          Only-then {m = nack o d.tag false false}
            (record { at = λ log. more _ (free _ refl) same }) (Only-pure _)
      process_parsed-Only (ok msg) =
          Only-bind (process-Only p.processor processor msg) (settle-Only msg)

      pub process_message-Only : Only P (process_message o p d)
      unfolding process_message
      process_message-Only = process_parsed-Only _

    -- The service.
    module _ (s : PdfService) (stores : Stores P s.repo) (user_id : String)
        (req : CreateJobRequest) where
      report_queued-Only : (job_id : String) (f : Failure) → Only P (report_queued s job_id f)
      unfolding report_queued
      report_queued-Only job_id none = Only-pure _
      report_queued-Only job_id (some e) = Only-then (stores.to_failed _ _) (Only-pure _)

      enqueue_body-Only : (job_id : String) (r : Result Bytes) → Only P (enqueue_body o s job_id r)
      unfolding enqueue_body publish_job
      enqueue_body-Only job_id (err e) = Only-pure _
      enqueue_body-Only job_id (ok body) =
          Only-bind (send-Only s.rmq _ _ body) (report_queued-Only job_id)

      enqueue-Only : (job_id : String) (f : Failure) → Only P (enqueue o s job_id user_id req f)
      unfolding enqueue
      enqueue-Only job_id (some e) = Only-pure _
      enqueue-Only job_id none = enqueue_body-Only job_id _

      store_and_enqueue-Only : Only P (store_and_enqueue o s user_id req)
      unfolding store_and_enqueue
      store_and_enqueue-Only = Only-bind clock-Only λ now.
          Only-bind {m = new_uuid o} (record { at = λ log. more _ (free _ refl) same })
            λ job_id.
              Only-bind (stores.to_pending (new_job s job_id user_id req now) refl)
                (enqueue-Only job_id)

      check_size-Only : (r : Result ℤ) → Only P (check_size o s user_id req r)
      unfolding check_size
      check_size-Only (err e) = store_and_enqueue-Only
      check_size-Only (ok size) =
          Only-if (leb_ℤ max_queue_size size) (λ full. Only-pure _) (λ room. store_and_enqueue-Only)

      create_valid-Only :
          (v : Option (List ValidationError)) → Only P (create_valid o s user_id req v)
      unfolding create_valid queue_size
      create_valid-Only (some errs) = Only-pure _
      create_valid-Only none =
          Only-bind {m = queue_size o s.rmq} (record { at = λ log. more _ (free _ refl) same })
            check_size-Only

      pub create_job-Only : Only P (create_job o s user_id req)
      unfolding create_job
      create_job-Only = create_valid-Only _
