-- ===== src/Go/Error.antt =====
-- Go errors: sentinel values, `fmt.Errorf` with `%w`, `errors.Is`, and (value, error) results.
use Prim.Native.String.{◌++◌}
use pdf_generator.Prelude.{String, Bool, true, false, List, Option, ◌≡◌, refl, ◌⊎◌, inl, inr}

-- internal/domain/errors.go
pub data Sentinel : Type 0 where
  err_job_not_found err_invalid_input err_unauthorized err_forbidden err_internal_server : Sentinel
  err_queue_unavailable err_rate_limit_exceeded err_token_expired err_token_invalid : Sentinel
  err_sse_max_connections : Sentinel

pub record ValidationError : Type 0 where
  pub field : String
  pub message : String

-- `other` is an error made by `errors.New`-like calls or by a library, with its text; `no_rows` is
-- `pgx.ErrNoRows`; `wrapped before e after` is `fmt.Errorf("<before>%w<after>", e)`.
pub data GoError : Type 0 where
  sentinel : Sentinel → GoError
  no_rows : GoError
  validation_err : List ValidationError → GoError
  other : String → GoError
  wrapped : String → GoError → String → GoError

-- The texts of the sentinels.
unfoldable pub sentinel_text : Sentinel → String
sentinel_text err_job_not_found = "job not found"
sentinel_text err_invalid_input = "invalid input"
sentinel_text err_unauthorized = "unauthorized"
sentinel_text err_forbidden = "forbidden"
sentinel_text err_internal_server = "internal server error"
sentinel_text err_queue_unavailable = "queue service unavailable"
sentinel_text err_rate_limit_exceeded = "rate limit exceeded"
sentinel_text err_token_expired = "token expired"
sentinel_text err_token_invalid = "token invalid"
sentinel_text err_sse_max_connections = "max SSE connections reached"

-- `err.Error()`.
unfoldable pub error_text : GoError → String
unfolding sentinel_text
error_text (sentinel s) = sentinel_text s
error_text no_rows = "no rows in result set"
error_text (validation_err _) = "validation failed"
error_text (other text) = text
error_text (wrapped before e after) = before ++ error_text e ++ after

pub Sentinel-discrete : Discrete Sentinel
Sentinel-discrete = hlevel

abbrev pub same_sentinel : Sentinel → Sentinel → Bool
same_sentinel err_job_not_found err_job_not_found = true
same_sentinel err_invalid_input err_invalid_input = true
same_sentinel err_unauthorized err_unauthorized = true
same_sentinel err_forbidden err_forbidden = true
same_sentinel err_internal_server err_internal_server = true
same_sentinel err_queue_unavailable err_queue_unavailable = true
same_sentinel err_rate_limit_exceeded err_rate_limit_exceeded = true
same_sentinel err_token_expired err_token_expired = true
same_sentinel err_token_invalid err_token_invalid = true
same_sentinel err_sse_max_connections err_sse_max_connections = true
same_sentinel _ _ = false

-- `errors.Is(err, target)` for a sentinel of the program: the chain of `%w` is walked.
unfoldable pub is_error : GoError → Sentinel → Bool
is_error (sentinel s) target = same_sentinel s target
is_error no_rows target = false
is_error (validation_err _) target = false
is_error (other _) target = false
is_error (wrapped _ e _) target = is_error e target

-- `errors.Is(err, pgx.ErrNoRows)`.
unfoldable pub is_no_rows : GoError → Bool
is_no_rows (sentinel _) = false
is_no_rows no_rows = true
is_no_rows (validation_err _) = false
is_no_rows (other _) = false
is_no_rows (wrapped _ e _) = is_no_rows e

-- A function that returns `(T, error)`, with the value in use only where the error is nil.
pub data Result {ℓ} (A : Type ℓ) : Type ℓ where
  ok : A → Result A
  err : GoError → Result A

-- A function that returns `error`: `none` is nil.
abbrev pub Failure : Type 0
Failure = Option GoError

-- `fmt.Errorf("<before>%w", e)`.
abbrev pub wrap : String → GoError → GoError
wrap before e = wrapped before e ""

pub Result-cases {ℓ} :
    {A : Type ℓ} (r : Result A) → ((a : A) × (r ≡ ok a)) ⊎ ((e : GoError) × (r ≡ err e))
Result-cases (ok a) = inl (a, refl)
Result-cases (err e) = inr (e, refl)
