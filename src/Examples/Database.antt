-- ===== src/Examples/Database.antt =====
-- The jobs table at concrete inputs: a database that answers from the statements in the log.
use text.Mathlib.Text.{◌==◌ as str_eq}
use pdf_generator.Prelude.{
  ℕ, String, ◌≡◌, refl, [], ◌∷◌, Option, none, some, false, if◌then◌else◌, Bool-cases, inl, inr,
}
use pdf_generator.Prelude.Int.{pos}
use pdf_generator.Go.{Result, ok, err, other, no_rows}
use pdf_generator.Domain.{Job, JobMessage, JobStatusResponse, pending, completed}
use pdf_generator.World.{Outside, Act, Log, executed, selected_row}
use pdf_generator.World.Sql.{Statement, insert_job}
use pdf_generator.World.Extends.{same, more}
use pdf_generator.Repository.Postgres.{new_job_repository, create, get_by_id}
use pdf_generator.Queue.Publish.{publish_event, publish_job, queue_size}
use pdf_generator.Pdf.Generate.{
  generate, generate_parsed, generate_checked, draw_and_write, validate, file_path_of,
}
use pdf_generator.Worker.Processor.{
  PdfProcessor, process, process_started, report_generated, report_completed, announce,
  announce_body,
}
use pdf_generator.Worker.Pool.{process_message}
use pdf_generator.Service.PdfService.{
  PdfService, get_job_status, status_response, create_job, create_valid, check_size,
  store_and_enqueue, enqueue, enqueue_body, report_queued, job_response,
}
use pdf_generator.Service.Validator.{validate_create_job_request}
use pdf_generator.Database.Table.{
  Table, apply, inserted_row, is_statement, Replay, start, applied, refused, passed,
}
use pdf_generator.Database.Shape.{IsValid}
use pdf_generator.Database.History.{nothing, created, processed, rows-IsValid}
use pdf_generator.Database.Evolution.{Lives, rows-evolve}
use pdf_generator.Database.Oracle.{IsDatabase}
use pdf_generator.Database.Creation.{create_job-visible}
use pdf_generator.Database.Lifecycle.{process-visible}
use pdf_generator.Examples.Samples.{
  outside, rabbit, pool, delivery, service, request, sample_message, sample_job,
}

-- The table that holds the sample job, and what the statements of a log make of it.
abbrev one_job : Table
one_job id = if str_eq id "job-1" then some (inserted_row sample_job) else none

abbrev pub table_of : Log → Table
table_of [] = one_job
table_of (executed s (ok n) ∷ log) = apply s (table_of log)
table_of (executed s (err e) ∷ log) = table_of log
table_of (_ ∷ log) = table_of log

abbrev row_or_none : Option Job → Result Job
row_or_none none = err no_rows
row_or_none (some job) = ok job

-- An INSERT over a row that is there is refused.
abbrev pub answer_of : Statement → Table → Result ℕ
answer_of (insert_job job) t = elim (t job.id) [
  | none ↦ ok 1
  | some row ↦ err (other "duplicate key")
]
answer_of _ t = ok 1

abbrev pub database : Outside
database = record outside {
  uuid = λ _. "job-2";
  exec = λ log s. answer_of s (table_of log);
  query_row = λ log id. row_or_none (table_of log id);
  marshal_message = λ _. ok "2";
}

new_key :
    (row : Option Job) (n : ℕ) → answer_of (insert_job sample_job) (λ _. row) ≡ ok n → row ≡ none
new_key none n h = refl
new_key (some row) n h = cc

read_row : (row : Option Job) (job : Job) → row_or_none row ≡ ok job → row ≡ some job
read_row none job h = cc
read_row (some row) job h = cc

passed_on : (a : Act) (log : Log) → is_statement a ≡ false → table_of (a ∷ log) ≡ table_of log
passed_on (executed s r) log h = cc
passed_on _ log h = refl

pub database-IsDatabase : IsDatabase database table_of
database-IsDatabase = record {
  passed = passed_on;
  applied = λ s n log. refl;
  inserted = λ log job n h. new_key (table_of log job.id) n h;
  read = λ log id job h. read_row (table_of log id) job h;
}

abbrev processor : PdfProcessor
processor = record {
  repo = new_job_repository database;
  rmq = rabbit;
  generator = record { output_dir = "out" };
}

abbrev pub reader : PdfService
reader = record service { repo = new_job_repository database }

abbrev good_message : JobMessage
good_message = record (sample_message (pos 0)) { payload = "good" }

-- The log when the message has been processed and the row asked for.
abbrev asked : Log
asked = selected_row "job-1" (err no_rows) ∷ (process database processor good_message []).1

abbrev shown : JobStatusResponse
shown = record {
  id = "job-1";
  user_id = "ann";
  status = completed;
  file_path = some "out/job-1.pdf";
  error_message = none;
  created_at = 0;
  completed_at = some 6;
}

process-visible_example :
    (shown.status ≡ completed)
    × (shown.file_path ≡ some (file_path_of database processor.generator "job-1"))
    × (shown.error_message ≡ none)
unfolding process process_started report_generated report_completed new_job_repository announce
    announce_body publish_event generate generate_parsed generate_checked draw_and_write validate
    get_job_status status_response apply
process-visible_example =
    process-visible database-IsDatabase processor reader good_message "ann" [] asked shown refl refl
      refl (more _ refl same) refl

replayed : (log : Log) → Replay one_job log (table_of log)
replayed [] = start
replayed (executed s (ok n) ∷ log) = applied s (ok n) (replayed log)
replayed (executed s (err e) ∷ log) = refused s e (replayed log)
replayed (a ∷ log) = passed a refl (replayed log)

one_job-IsValid : IsValid one_job
one_job-IsValid id = elim (Bool-cases (str_eq id "job-1")) [
  | inl this ↦ rw this (tt, tt, tt)
  | inr another ↦ rw another tt
]

-- A job is created, and the first delivery of it fails.
abbrev calls : Log
calls =
    (process_message outside pool delivery
      (create_job outside service "ann" (request "broken") []).1).1

rows-IsValid_example : IsValid (table_of calls)
rows-IsValid_example =
    rows-IsValid outside one_job (table_of calls)
      (processed pool delivery refl refl (created service "ann" (request "broken") refl nothing))
      (replayed calls) one_job-IsValid

abbrev just_created : JobStatusResponse
just_created = record {
  id = "job-2";
  user_id = "ann";
  status = pending;
  file_path = none;
  error_message = none;
  created_at = 1;
  completed_at = none;
}

create_job-visible_example :
    (◌≡◌ {A = String} "ann" "ann")
    × (just_created.status ≡ pending)
    × (just_created.file_path ≡ none)
    × (just_created.error_message ≡ none)
unfolding create_job create_valid check_size store_and_enqueue enqueue enqueue_body report_queued
    publish_job queue_size validate_create_job_request new_job_repository create get_job_status
    get_by_id status_response apply
create_job-visible_example =
    create_job-visible database-IsDatabase reader "ann" "ann" (request "good")
      (job_response "job-2") [] (create_job database reader "ann" (request "good") []).1
      just_created refl refl same refl

rows-evolve_example : Lives (inserted_row sample_job) (table_of calls "job-1")
rows-evolve_example =
    rows-evolve outside one_job (table_of calls) "job-1" (inserted_row sample_job)
      (processed pool delivery refl refl (created service "ann" (request "broken") refl nothing))
      (replayed calls) refl
