-- ===== src/Examples/Failure.antt =====
-- A job that is given up, over the database of the example of the jobs table.
use pdf_generator.Prelude.{ℕ, suc, ◌<◌, ◌^◌, sym, ap, arith, ◌≡◌, refl, ◌∷◌, [], none, some}
use pdf_generator.Prelude.Int.{ℤ, pos, int_add}
use pdf_generator.Go.{Result, ok, GoError, err, no_rows, other, wrap}
use pdf_generator.Domain.{JobMessage, JobStatusResponse, failed}
use pdf_generator.World.{Log, selected_row}
use pdf_generator.World.Extends.{same, more}
use pdf_generator.Repository.Postgres.{new_job_repository}
use pdf_generator.Pdf.Generate.{generate, generate_parsed}
use pdf_generator.Queue.Publish.{publish_event, publish_to_dlq}
use pdf_generator.Worker.Processor.{
  process, process_started, report_generated, announce, announce_body, parse_message,
}
use pdf_generator.Worker.Pool.{
  Pool, Delivery, process_message, process_parsed, settle, handle_failure, give_up, send_dlq_body,
}
use pdf_generator.Service.PdfService.{get_job_status, status_response}
use pdf_generator.Worker.Moves.{IsHealthy}
use pdf_generator.Worker.Fate.{Became, process_message-moves}
use pdf_generator.Database.Table.{apply}
use pdf_generator.Database.Failure.{exhausted, given_up-visible}
use pdf_generator.Examples.Samples.{pool, sample_message}
use pdf_generator.Examples.Database.{database, database-IsDatabase, reader}

abbrev last_pool : Pool
last_pool = record pool {
  processor = record pool.processor { repo = new_job_repository database };
  repo = new_job_repository database;
}

-- The last retry, with a payload that cannot be read.
abbrev last_delivery : Delivery
last_delivery = record { tag = 7; body = "3" }

abbrev cause : GoError
cause = wrap "generate PDF: " (wrap "unmarshal payload: " (other "not a payload"))

abbrev asked : Log
asked = selected_row "job-1" (err no_rows) ∷ (process_message database last_pool last_delivery []).1

abbrev shown : JobStatusResponse
shown = record {
  id = "job-1";
  user_id = "ann";
  status = failed;
  file_path = none;
  error_message = some (exhausted cause);
  created_at = 0;
  completed_at = some 13;
}

given_up-visible_example :
    (shown.status ≡ failed)
    × (shown.file_path ≡ none)
    × (shown.error_message ≡ some (exhausted cause))
unfolding process process_started report_generated new_job_repository announce announce_body
    publish_event generate generate_parsed process_message process_parsed settle handle_failure
    give_up send_dlq_body publish_to_dlq get_job_status status_response apply parse_message int_add
given_up-visible_example =
    given_up-visible database-IsDatabase last_pool reader last_delivery (sample_message (pos 3))
      cause "ann" [] asked shown refl refl refl refl refl refl (more _ refl same) refl

last-IsHealthy : IsHealthy database last_pool
last-IsHealthy = record {
  wired = record { repo = refl; processor_repo = refl };
  accepts = λ log q. refl;
  encodes = λ m. ("2", refl);
  exchanges = refl;
  few = omega arith;
}

retry_count_of : Result JobMessage → ℤ
retry_count_of (err e) = pos 0
retry_count_of (ok m) = m.retry_count

last_count :
    (m : JobMessage)
    → parse_message database last_delivery.body ≡ ok m
    → (n : ℕ) × (m.retry_count ≡ pos n) × (suc n < 2 ^ 63)
unfolding parse_message retry_count_of
last_count m parsed = (3, sym (ap retry_count_of parsed), omega arith)

process_message-moves_example : Became database last_pool last_delivery []
process_message-moves_example =
    process_message-moves database last_pool last_delivery [] last-IsHealthy last_count
