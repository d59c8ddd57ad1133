-- ===== src/Handler/Response.antt =====
-- What the handlers answer, and `handleError`.
use pdf_generator.Prelude.{ℕ, String, List, [], none, some, if◌then◌else◌}
use pdf_generator.Prelude.Int.{ℤ}
use pdf_generator.Go.{
  GoError, ValidationError, is_error, err_job_not_found, err_forbidden, err_queue_unavailable,
}
use pdf_generator.Domain.{ApiError, new_api_error, JobResponse, JobStatusResponse}
use pdf_generator.Token.Manager.{TokenPair}
use pdf_generator.Service.PdfService.{is_validation_error}

pub data Body : Type 0 where
  api_error : ApiError → Body
  job_created : JobResponse → Body
  job_status : JobStatusResponse → Body
  -- jobs, limit, offset
  job_page : List JobStatusResponse → ℤ → ℤ → Body
  tokens : TokenPair → Body
  -- the number of connections
  health : ℤ → Body
  ready : Body
  -- a server-sent event: its name and its data
  stream_event : String → String → Body

-- `c.JSON(code, body)`.
pub record Response : Type 0 where
  pub code : ℕ
  pub body : Body

abbrev pub respond : ℕ → Body → Response
respond code body = record { code = code; body = body }

-- `c.JSON(code, domain.NewAPIError(code, message, errs...))`.
abbrev pub refuse : ℕ → String → List ValidationError → Response
refuse code message errs = respond code (api_error (new_api_error code message errs))

-- The `switch` of `handleError`.
unfoldable pub refuse_kind : GoError → Response
refuse_kind e =
    if is_error e err_job_not_found
    then refuse 404 "job not found" []
    else if is_error e err_forbidden
    then refuse 403 "access denied" []
    else if is_error e err_queue_unavailable
    then refuse 503 "service temporarily unavailable" []
    else refuse 500 "internal server error" []

unfoldable pub handle_error : GoError → Response
handle_error e = elim (is_validation_error e) [
  | some errs ↦ refuse 400 "validation failed" errs
  | none ↦ refuse_kind e
]
