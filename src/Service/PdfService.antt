-- ===== src/Service/PdfService.antt =====
-- `CreateJob`, `GetJobStatus`, `ListJobs` and `IsValidationError`.
use Prim.Native.String.{◌++◌}
use text.Mathlib.Text.{◌==◌ as str_eq}
use pdf_generator.Prelude.{String, ◌||◌, List, map, Option, none, some, if◌then◌else◌}
use pdf_generator.Prelude.Int.{ℤ, pos, leb_ℤ, ltb_ℤ}
use pdf_generator.Go.{
  GoError, Failure, ValidationError, Result, ok, err, sentinel, no_rows, validation_err, other,
  wrapped, wrap, err_forbidden, err_queue_unavailable, error_text, show_int,
}
use pdf_generator.Domain.{
  Job, pending, failed, CreateJobRequest, JobResponse, JobStatusResponse, JobMessage, Time, Bytes,
}
use pdf_generator.World.{Outside, M, ◌>>=◌, ◌>>◌, pure, clock, new_uuid}
use pdf_generator.Repository.{JobRepository}
use pdf_generator.Queue.Connection.{RabbitMq}
use pdf_generator.Queue.Publish.{publish_job, queue_size}
use pdf_generator.Service.Validator.{validate_create_job_request}

pub record PdfService : Type 0 where
  pub repo : JobRepository
  pub rmq : RabbitMq
  pub max_retries : ℤ

abbrev pub max_queue_size : ℤ
max_queue_size = pos 10000

abbrev pub new_job : PdfService → String → String → CreateJobRequest → Time → Job
new_job s job_id user_id req now = record {
  id = job_id;
  user_id = user_id;
  template_name = req.template_name;
  payload = req.payload;
  status = pending;
  file_path = none;
  error_message = none;
  retry_count = pos 0;
  max_retries = s.max_retries;
  created_at = now;
  updated_at = now;
  completed_at = none;
}

abbrev pub new_message : PdfService → String → String → CreateJobRequest → JobMessage
new_message s job_id user_id req = record {
  job_id = job_id;
  user_id = user_id;
  template_name = req.template_name;
  payload = req.payload;
  retry_count = pos 0;
  max_retries = s.max_retries;
}

abbrev pub job_response : String → JobResponse
job_response job_id = record {
  id = job_id;
  status = pending;
  message = "PDF generation job queued for processing";
}

-- The end of `CreateJob`, after `PublishJob`: a stored job that the queue refuses is marked failed.
unfoldable pub report_queued : PdfService → String → Failure → M (Result JobResponse)
report_queued s job_id none = pure (ok (job_response job_id))
report_queued s job_id (some e) = do
  s.repo.update_status job_id failed none (some "failed to queue job")
  pure (err (wrapped "" (sentinel err_queue_unavailable) (": " ++ error_text e)))

-- The part of `CreateJob` after `json.Marshal`.
unfoldable pub enqueue_body : Outside → PdfService → String → Result Bytes → M (Result JobResponse)
enqueue_body o s job_id (err e) = pure (err (wrap "marshal job message: " e))
enqueue_body o s job_id (ok body) = do sent ← publish_job o s.rmq body; report_queued s job_id sent

-- The part of `CreateJob` after `repo.Create`.
unfoldable pub enqueue :
    Outside → PdfService → String → String → CreateJobRequest → Failure → M (Result JobResponse)
enqueue o s job_id user_id req (some e) = pure (err (wrap "create job: " e))
enqueue o s job_id user_id req none =
    enqueue_body o s job_id (o.marshal_message (new_message s job_id user_id req))

-- The part of `CreateJob` after the two checks.
unfoldable pub store_and_enqueue :
    Outside → PdfService → String → CreateJobRequest → M (Result JobResponse)
store_and_enqueue o s user_id req = do
  now ← clock o
  job_id ← new_uuid o
  stored ← s.repo.create (new_job s job_id user_id req now)
  enqueue o s job_id user_id req stored

abbrev pub full_error : ℤ → GoError
full_error size =
    wrapped "" (sentinel err_queue_unavailable)
      (": queue is full (" ++ show_int size ++ " messages)")

-- The backpressure check; where the size is not known the request goes on.
unfoldable pub check_size :
    Outside → PdfService → String → CreateJobRequest → Result ℤ → M (Result JobResponse)
check_size o s user_id req (err _) = store_and_enqueue o s user_id req
check_size o s user_id req (ok size) =
    if leb_ℤ max_queue_size size
    then pure (err (full_error size))
    else store_and_enqueue o s user_id req

-- The part of `CreateJob` after validation.
unfoldable pub create_valid :
    Outside
    → PdfService
    → String
    → CreateJobRequest
    → Option (List ValidationError)
    → M (Result JobResponse)
create_valid o s user_id req (some errs) = pure (err (validation_err errs))
create_valid o s user_id req none = do size ← queue_size o s.rmq; check_size o s user_id req size

unfoldable pub create_job :
    Outside → PdfService → String → CreateJobRequest → M (Result JobResponse)
create_job o s user_id req = create_valid o s user_id req (validate_create_job_request o req)

unfoldable pub status_response : Job → JobStatusResponse
status_response job = record {
  id = job.id;
  user_id = job.user_id;
  status = job.status;
  file_path = job.file_path;
  error_message = job.error_message;
  created_at = job.created_at;
  completed_at = job.completed_at;
}

abbrev pub seen_by : String → Result Job → Result JobStatusResponse
unfolding status_response
seen_by user_id (err e) = err e
seen_by user_id (ok job) =
    if str_eq job.user_id user_id then ok (status_response job) else err (sentinel err_forbidden)

unfoldable pub get_job_status : PdfService → String → String → M (Result JobStatusResponse)
unfolding status_response
get_job_status s user_id job_id = do job ← s.repo.get_by_id job_id; pure (seen_by user_id job)

unfoldable pub page_limit : ℤ → ℤ
page_limit limit = if leb_ℤ limit (pos 0) || ltb_ℤ (pos 100) limit then pos 20 else limit

unfoldable pub page_offset : ℤ → ℤ
page_offset offset = if ltb_ℤ offset (pos 0) then pos 0 else offset

abbrev listed : Result (List Job) → Result (List JobStatusResponse)
unfolding status_response
listed (err e) = err (wrap "list jobs: " e)
listed (ok jobs) = ok (map status_response jobs)

unfoldable pub list_jobs : PdfService → String → ℤ → ℤ → M (Result (List JobStatusResponse))
unfolding page_limit page_offset status_response
list_jobs s user_id limit offset = do
  jobs ← s.repo.get_by_user_id user_id (page_limit limit) (page_offset offset)
  pure (listed jobs)

-- `errors.As` with `*validationErr`.
unfoldable pub is_validation_error : GoError → Option (List ValidationError)
is_validation_error (sentinel _) = none
is_validation_error no_rows = none
is_validation_error (validation_err errs) = some errs
is_validation_error (other _) = none
is_validation_error (wrapped _ e _) = is_validation_error e
