-- ===== src/Domain.antt =====
-- internal/domain/job.go and internal/domain/errors.go: the data that the components exchange.
-- JSON tags and `Timestamp` formats belong to the encoders, which are parameters of the model.
use pdf_generator.Prelude.{ℕ, String, List, Option}
use pdf_generator.Prelude.Int.{ℤ}
use pdf_generator.Go.{ValidationError}

-- `JobStatus`: the four constants that the program stores and sends.
pub data JobStatus : Type 0 where
  pending processing completed failed : JobStatus

-- A `time.Time` is the number of nanoseconds since a fixed origin.
abbrev pub Time : Type 0
Time = ℕ

-- `json.RawMessage` and `[]byte` are the text of the bytes.
abbrev pub Bytes : Type 0
Bytes = String

pub record Job : Type 0 where
  pub id : String
  pub user_id : String
  pub template_name : String
  pub payload : Bytes
  pub status : JobStatus
  pub file_path : Option String
  pub error_message : Option String
  pub retry_count : ℤ
  pub max_retries : ℤ
  pub created_at : Time
  pub updated_at : Time
  pub completed_at : Option Time

pub record CreateJobRequest : Type 0 where
  pub template_name : String
  pub payload : Bytes

pub record JobResponse : Type 0 where
  pub id : String
  pub status : JobStatus
  pub message : String

pub record JobStatusResponse : Type 0 where
  pub id : String
  pub user_id : String
  pub status : JobStatus
  pub file_path : Option String
  pub error_message : Option String
  pub created_at : Time
  pub completed_at : Option Time

-- What workers consume from the job queue.
pub record JobMessage : Type 0 where
  pub job_id : String
  pub user_id : String
  pub template_name : String
  pub payload : Bytes
  pub retry_count : ℤ
  pub max_retries : ℤ

-- What the fanout exchange carries when a job changes its status.
pub record JobEvent : Type 0 where
  pub job_id : String
  pub user_id : String
  pub status : JobStatus
  pub file_path : Option String
  pub error_message : Option String
  pub timestamp : Time

pub record ApiError : Type 0 where
  pub code : ℕ
  pub message : String
  pub errors : List ValidationError

unfoldable pub new_api_error : ℕ → String → List ValidationError → ApiError
new_api_error code message errs = record { code = code; message = message; errors = errs }
