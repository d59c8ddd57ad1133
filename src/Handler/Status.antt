-- ===== src/Handler/Status.antt =====
-- What the status code of a response says.
use text.Mathlib.Text.{◌==◌ as str_eq}
use pdf_generator.Prelude.{
  ℕ, String, ◌≡◌, refl, ◌+◌, arith, count_if, ◌==◌, if◌then◌else◌, Bool-cases, inl, inr,
}
use pdf_generator.Go.{GoError, Result, ok, err, no_rows, other, is_error, is_no_rows}
use pdf_generator.Domain.{Job, CreateJobRequest, JobResponse}
use pdf_generator.World.{Outside, Log}
use pdf_generator.Repository.Postgres.{new_job_repository, get_by_id}
use pdf_generator.Repository.Quiet.{IsQuiet}
use pdf_generator.Service.PdfService.{PdfService, create_job, get_job_status, is_validation_error}
use pdf_generator.Service.Creation.{is_accepted, queued, create_job-queues}
use pdf_generator.Handler.Response.{refuse_kind, handle_error}
use pdf_generator.Handler.Pdf.{creation_response, create_handler, status_result, get_handler}

-- How many messages a status code stands for.
abbrev pub promised : ℕ → ℕ
promised code = if code == 202 then 1 else 0

refused : (e : GoError) → promised (handle_error e).code ≡ 0
unfolding handle_error refuse_kind
refused e = ground arith

promised-queued : (r : Result JobResponse) → promised (creation_response r).code ≡ queued r
promised-queued (ok resp) = refl
promised-queued (err e) = refused e

-- Where the repository publishes nothing itself, the response to a creation has the status 202 exactly
-- where the broker has accepted one message for it, and another status exactly where it has accepted
-- none.
pub create_handler-promises :
    (o : Outside) (s : PdfService) (user_id : String) (bound : Result CreateJobRequest) (log : Log)
    → IsQuiet is_accepted s.repo
    → count_if is_accepted (create_handler o s user_id bound log).1
      ≡ promised (create_handler o s user_id bound log).0.code + count_if is_accepted log
unfolding create_handler
create_handler-promises o s user_id (err e) log quiet = omega arith
create_handler-promises o s user_id (ok req) log quiet = omega (
  arith,
  create_job-queues o s quiet user_id req log,
  promised-queued (create_job o s user_id req log).0,
)

-- What the database can answer to the query of a job.
pub data Row : Type 0 where
  found : Job → Row
  missing : Row
  broken : String → Row

abbrev pub answer : Row → Result Job
answer (found job) = ok job
answer missing = err no_rows
answer (broken text) = err (other text)

abbrev expected_row : String → Row → ℕ
expected_row user_id (found job) = if str_eq job.user_id user_id then 200 else 403
expected_row user_id missing = 404
expected_row user_id (broken _) = 500

-- The status that a request for a job should have.
abbrev pub expected_status : String → String → Row → ℕ
expected_status user_id job_id row =
    let code = expected_row user_id row in if str_eq job_id "" then 400 else code

read_status :
    (o : Outside) (s : PdfService) (user_id job_id : String) (row : Row) (log : Log)
    → s.repo ≡ new_job_repository o
    → o.query_row log job_id ≡ answer row
    → (status_result (get_job_status s user_id job_id log).0).code ≡ expected_row user_id row
unfolding get_job_status new_job_repository handle_error refuse_kind is_error is_no_rows
    is_validation_error get_by_id
read_status o s user_id job_id (found job) log same read = rw same (
    rw read (elim (Bool-cases (str_eq job.user_id user_id)) [
      | inl mine ↦ rw mine refl
      | inr theirs ↦ rw theirs refl
    ]))
read_status o s user_id job_id missing log same read = rw same (rw read refl)
read_status o s user_id job_id (broken text) log same read = rw same (rw read refl)

-- Over PostgreSQL, the status of a response to `GetJobStatus` is 400 without an id, 404 where there is
-- no such row, 403 where the row belongs to another user, 200 where it is the user's own, and 500
-- where the query fails.
pub get_handler-status :
    (o : Outside) (s : PdfService) (user_id job_id : String) (row : Row) (log : Log)
    → s.repo ≡ new_job_repository o
    → o.query_row log job_id ≡ answer row
    → (get_handler s user_id job_id log).0.code ≡ expected_status user_id job_id row
unfolding get_handler
get_handler-status o s user_id job_id row log same read = elim (Bool-cases (str_eq job_id "")) [
  | inl nameless ↦ rw nameless refl
  | inr named ↦ rw named (read_status o s user_id job_id row log same read)
]
