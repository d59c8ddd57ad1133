-- ===== src/Worker/Processor.antt =====
-- internal/worker/pdf_processor.go.
use pdf_generator.Prelude.{String, Option, none, some}
use pdf_generator.Go.{Result, ok, err, Failure, wrap, error_text}
use pdf_generator.Domain.{
  JobStatus, processing, completed, failed, Bytes, JobMessage, JobEvent, Time,
}
use pdf_generator.World.{Outside, M, ◌>>=◌, ◌>>◌, pure, clock}
use pdf_generator.Repository.{JobRepository}
use pdf_generator.Queue.Connection.{RabbitMq}
use pdf_generator.Queue.Publish.{publish_event}
use pdf_generator.Pdf.Generate.{Generator, generate}

pub record PdfProcessor : Type 0 where
  pub repo : JobRepository
  pub rmq : RabbitMq
  pub generator : Generator

abbrev pub new_pdf_processor : JobRepository → RabbitMq → Generator → PdfProcessor
new_pdf_processor repo rmq generator = record { repo = repo; rmq = rmq; generator = generator }

abbrev pub job_event : String → String → JobStatus → Option String → Option String → Time → JobEvent
job_event job_id user_id status file_path err_msg now = record {
  job_id = job_id;
  user_id = user_id;
  status = status;
  file_path = file_path;
  error_message = err_msg;
  timestamp = now;
}

-- The part of `publishEvent` after `json.Marshal`; a failure of either is only logged.
unfoldable pub announce_body : Outside → PdfProcessor → Result Bytes → M (Unit {0})
announce_body o p (err _) = pure tt
announce_body o p (ok body) = do publish_event o p.rmq body; pure tt

-- `publishEvent` of the processor.
unfoldable pub announce :
    Outside
    → PdfProcessor
    → String
    → String
    → JobStatus
    → Option String
    → Option String
    → M (Unit {0})
announce o p job_id user_id status file_path err_msg = do
  now ← clock o
  announce_body o p (o.marshal_event (job_event job_id user_id status file_path err_msg now))

-- The end of `Process`, after `Generate` returned a path and the row was updated.
unfoldable pub report_completed : Outside → PdfProcessor → JobMessage → String → Failure → M Failure
report_completed o p msg file_path (some e) = pure (some (wrap "update status to completed: " e))
report_completed o p msg file_path none = do
  announce o p msg.job_id msg.user_id completed (some file_path) none
  pure none

-- The part of `Process` after `Generate`.
unfoldable pub report_generated : Outside → PdfProcessor → JobMessage → Result String → M Failure
report_generated o p msg (err e) = do
  p.repo.update_status msg.job_id failed none (some (error_text e))
  announce o p msg.job_id msg.user_id failed none (some (error_text e))
  pure (some (wrap "generate PDF: " e))
report_generated o p msg (ok file_path) = do
  finished ← p.repo.update_status msg.job_id completed (some file_path) none
  report_completed o p msg file_path finished

-- The part of `Process` after the row was marked as being processed.
unfoldable pub process_started : Outside → PdfProcessor → JobMessage → Failure → M Failure
process_started o p msg (some e) = pure (some (wrap "update status to processing: " e))
process_started o p msg none = do
  announce o p msg.job_id msg.user_id processing none none
  made ← generate o p.generator msg.job_id msg.template_name msg.payload
  report_generated o p msg made

unfoldable pub process : Outside → PdfProcessor → JobMessage → M Failure
process o p msg = do
  started ← p.repo.update_status msg.job_id processing none none
  process_started o p msg started

unfoldable pub parse_message : Outside → Bytes → Result JobMessage
parse_message o body = elim (o.unmarshal_message body) [
  | err e ↦ err (wrap "unmarshal message: " e)
  | ok msg ↦ ok msg
]
