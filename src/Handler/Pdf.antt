-- ===== src/Handler/Pdf.antt =====
-- `CreateJob`, `GetJobStatus` and `ListJobs` of the handler. The body that `ShouldBindJSON` reads, and
-- the two numbers that `Atoi` reads from the query, are arguments.
use text.Mathlib.Text.{◌==◌ as str_eq}
use pdf_generator.Prelude.{String, List, [], if◌then◌else◌}
use pdf_generator.Prelude.Int.{ℤ}
use pdf_generator.Go.{Result, ok, err}
use pdf_generator.Domain.{CreateJobRequest, JobResponse, JobStatusResponse}
use pdf_generator.World.{Outside, M, ◌>>=◌, pure}
use pdf_generator.Service.PdfService.{PdfService, create_job, get_job_status, list_jobs}
use pdf_generator.Handler.Response.{
  Response, job_created, job_status, job_page, respond, refuse, handle_error,
}

abbrev pub creation_response : Result JobResponse → Response
creation_response (ok resp) = respond 202 (job_created resp)
creation_response (err e) = handle_error e

unfoldable pub create_handler : Outside → PdfService → String → Result CreateJobRequest → M Response
create_handler o s user_id (err _) = pure (refuse 400 "invalid request body" [])
create_handler o s user_id (ok req) = do
  result ← create_job o s user_id req
  pure (creation_response result)

abbrev pub status_result : Result JobStatusResponse → Response
status_result (ok resp) = respond 200 (job_status resp)
status_result (err e) = handle_error e

unfoldable pub get_handler : PdfService → String → String → M Response
get_handler s user_id job_id =
    if str_eq job_id ""
    then pure (refuse 400 "job id is required" [])
    else do result ← get_job_status s user_id job_id; pure (status_result result)

abbrev pub page_response : ℤ → ℤ → Result (List JobStatusResponse) → Response
page_response limit offset (ok jobs) = respond 200 (job_page jobs limit offset)
page_response limit offset (err e) = handle_error e

unfoldable pub list_handler : PdfService → String → ℤ → ℤ → M Response
list_handler s user_id limit offset = do
  result ← list_jobs s user_id limit offset
  pure (page_response limit offset result)
