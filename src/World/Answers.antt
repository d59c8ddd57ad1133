-- ===== src/World/Answers.antt =====
-- The log of the program's calls to the outside, newest first, and the answers of the outside. An
-- answer may depend on everything that was asked before, so nothing is assumed of it here.
use pdf_generator.Prelude.{ℕ, String, Bool, List, Option}
use pdf_generator.Prelude.Int.{ℤ}
use pdf_generator.Go.{Result, Failure}
use pdf_generator.Domain.{Job, Bytes, Time, CreateJobRequest, JobMessage, JobEvent}
use pdf_generator.World.Sql.{Statement}
use pdf_generator.World.Amqp.{Publication, Declaration}
use pdf_generator.World.Drawing.{Draw}

pub data Act : Type 0 where
  clocked : Time → Act
  drew_uuid : String → Act
  executed : Statement → Result ℕ → Act
  selected_row : String → Result Job → Act
  selected_rows : String → ℤ → ℤ → Result (List (Result Job) × Failure) → Act
  published : Publication → Failure → Act
  -- delivery tag, multiple
  acked : ℕ → Bool → Failure → Act
  -- delivery tag, multiple, requeue
  nacked : ℕ → Bool → Bool → Failure → Act
  inspected : Option ℕ → String → Result ℤ → Act
  wrote_pdf : String → List Draw → Failure → Act
  dialed : String → Result ℕ → Act
  opened_channel : ℕ → Result ℕ → Act
  closed_channel closed_connection : ℕ → Act
  declared : Option ℕ → Declaration → Result String → Act
  -- channel, prefetch count
  set_qos : Option ℕ → ℤ → Failure → Act
  -- channel, queue, auto-ack, exclusive
  consumed : Option ℕ → String → Bool → Bool → Failure → Act
  slept : ℕ → Act

abbrev pub Log : Type 0
Log = List Act

-- A `validator.FieldError`: its field, tag and parameter.
pub record FieldError : Type 0 where
  pub field : String
  pub tag : String
  pub param : String

-- A row of the payload of a PDF, and the payload: the types that `json.Unmarshal` fills.
pub record PdfItem : Type 0 where
  pub label : String
  pub value : String

pub record PdfData : Type 0 where
  pub title : String
  pub content : String
  pub author : String
  pub metadata : List (String × String)
  pub items : List PdfItem

pub record Outside : Type 0 where
  pub now : Log → Time
  pub uuid : Log → String
  -- rows affected
  pub exec : Log → Statement → Result ℕ
  pub query_row : Log → String → Result Job
  -- the answer of `Query`, that of `Scan` at each row, and `rows.Err()` after the last
  pub query : Log → String → ℤ → ℤ → Result (List (Result Job) × Failure)
  pub publish : Log → Publication → Failure
  pub ack : Log → ℕ → Bool → Failure
  pub nack : Log → ℕ → Bool → Bool → Failure
  pub queue_inspect : Log → Option ℕ → String → Result ℤ
  pub write_pdf : Log → String → List Draw → Failure
  pub dial : Log → String → Result ℕ
  pub open_channel : Log → ℕ → Result ℕ
  pub close_connection : Log → ℕ → Failure
  -- the name of the queue that was declared, "" for the other declarations
  pub declare : Log → Option ℕ → Declaration → Result String
  pub qos : Log → Option ℕ → ℤ → Failure
  pub consume : Log → Option ℕ → String → Bool → Bool → Failure
  pub marshal_message : JobMessage → Result Bytes
  pub unmarshal_message : Bytes → Result JobMessage
  pub marshal_event : JobEvent → Result Bytes
  pub unmarshal_event : Bytes → Result JobEvent
  pub unmarshal_pdf_data : Bytes → Result PdfData
  -- `validate.Struct`: no errors is nil
  pub validate_struct : CreateJobRequest → List FieldError
  pub join_path : String → String → String
