-- ===== src/Database/Journey.antt =====
-- A request in a world that works, from `CreateJob` to the completed document.
use pdf_generator.Prelude.{String, ◌≡◌, refl, sym, ap, subst, ◌∙◌, false, ◌∷◌, none, some}
use pdf_generator.Prelude.Int.{ℤ, leb_ℤ}
use pdf_generator.Go.{Result, ok}
use pdf_generator.Domain.{
  Job, completed, CreateJobRequest, JobResponse, JobStatusResponse, JobMessage, Bytes, Time,
}
use pdf_generator.World.Sql.{insert_job}
use pdf_generator.World.Amqp.{Publication}
use pdf_generator.World.{Outside, Log, PdfData, clocked, drew_uuid, published}
use pdf_generator.Repository.Postgres.{new_job_repository, create}
use pdf_generator.Queue.Connection.{RabbitMq}
use pdf_generator.Queue.Publish.{publish_job, queue_size}
use pdf_generator.Pdf.Generate.{Generator, validate, file_path_of}
use pdf_generator.Worker.Processor.{new_pdf_processor, process}
use pdf_generator.Service.Validator.{validate_create_job_request}
use pdf_generator.Service.PdfService.{
  PdfService, max_queue_size, new_job, new_message, job_response, report_queued, enqueue_body,
  enqueue, store_and_enqueue, check_size, create_valid, create_job, get_job_status,
}
use pdf_generator.Database.Table.{Table, inserted_row}
use pdf_generator.World.Extends.{Extends}
use pdf_generator.Database.Oracle.{IsDatabase, IsNoStatement, Extends-table}
use pdf_generator.Database.Creation.{created_row}
use pdf_generator.Database.Success.{IsLive, process-succeeds}

abbrev pub new_service : Outside → RabbitMq → ℤ → PdfService
new_service o rmq max_retries = record {
  repo = new_job_repository o;
  rmq = rmq;
  max_retries = max_retries;
}

-- A row whose id is new is inserted, every message can be encoded, and the broker accepts it.
pub record IsOpen (o : Outside) (table : Log → Table) : Type 0 where
  pub inserts :
      (log : Log) (job : Job) → table log job.id ≡ none → o.exec log (insert_job job) ≡ ok 1
  pub encodes : (m : JobMessage) → (b : Bytes) × (o.marshal_message m ≡ ok b)
  pub accepts : (log : Log) (q : Publication) → o.publish log q ≡ none

-- The log at which `CreateJob` draws the id, once the size of the queue is known.
abbrev pub drawing : Outside → RabbitMq → Log → Log
drawing o rmq log = let asked : Log = (queue_size o rmq log).1 in clocked (o.now asked) ∷ asked

module _ {o : Outside} {table : Log → Table} (db : IsDatabase o table) (open_ : IsOpen o table)
    (rmq : RabbitMq) (max_retries : ℤ) (user_id : String) (req : CreateJobRequest) where
  abbrev service : PdfService
  service = new_service o rmq max_retries

  -- An answer with the id of a row that was made from the request.
  abbrev IsCreated : Result JobResponse × Log → Type 0
  IsCreated q =
      (id : String) × (time : Time) × (q.0 ≡ ok (job_response id))
      × (table q.1 id ≡ some (inserted_row (new_job service id user_id req time)))

  accepted_row :
      (id : String) (time : Time) (body : Bytes) (log : Log)
      → table log id ≡ some (inserted_row (new_job service id user_id req time))
      → IsCreated (enqueue_body o service id (ok body) log)
  unfolding enqueue_body publish_job report_queued
  accepted_row id time body log row =
      let now = clocked (o.now log) in
      let q : Publication = record {
        channel = rmq.ch;
        exchange = rmq.cfg.job_exchange;
        key = rmq.cfg.job_queue;
        body = body;
        timestamp = o.now log;
      } in
      subst (λ f. IsCreated (report_queued service id f (published q f ∷ now ∷ log)))
        (sym (open_.accepts (now ∷ log) q))
        (
          id,
          time,
          refl,
          ap (λ t. t id) (db.passed (published q none) (now ∷ log) refl ∙ db.passed now log refl)
              ∙ row,
        )

  enqueue-IsCreated :
      (id : String) (time : Time) (log : Log)
      → table log id ≡ some (inserted_row (new_job service id user_id req time))
      → IsCreated (enqueue o service id user_id req none log)
  unfolding enqueue
  enqueue-IsCreated id time log row =
      let (body, encoded) = open_.encodes (new_message service id user_id req) in
      subst (λ b. IsCreated (enqueue_body o service id b log)) (sym encoded)
        (accepted_row id time body log row)

  create-accepted : (job : Job) (log : Log) → table log job.id ≡ none → (create o job log).0 ≡ none
  unfolding create
  create-accepted job log fresh = rw (open_.inserts log job fresh) refl

  store_and_enqueue-IsCreated :
      (log : Log)
      → table log (o.uuid (clocked (o.now log) ∷ log)) ≡ none
      → IsCreated (store_and_enqueue o service user_id req log)
  unfolding store_and_enqueue new_job_repository
  store_and_enqueue-IsCreated log fresh =
      let now = clocked (o.now log) in
      let id = o.uuid (now ∷ log) in
      let job = new_job service id user_id req (o.now log) in
      let drawn : Log = drew_uuid id ∷ now ∷ log in
      let stored = create-accepted job drawn (
        ap (λ t. t id) (db.passed (drew_uuid id) (now ∷ log) refl ∙ db.passed now log refl)
        ∙ fresh) in
      subst (λ f. IsCreated (enqueue o service id user_id req f (create o job drawn).1))
        (sym stored)
        (enqueue-IsCreated id (o.now log) (create o job drawn).1 (created_row db job drawn stored))

  create_job-IsCreated :
      (size : ℤ) (log : Log)
      → validate_create_job_request o req ≡ none
      → (queue_size o rmq log).0 ≡ ok size
      → leb_ℤ max_queue_size size ≡ false
      → table (queue_size o rmq log).1 (o.uuid (drawing o rmq log)) ≡ none
      → IsCreated (create_job o service user_id req log)
  unfolding create_job create_valid check_size
  create_job-IsCreated size log passed asked room fresh =
      rw passed (rw asked (rw room (store_and_enqueue-IsCreated (queue_size o rmq log).1 fresh)))

-- Over a database that is up and that no one else writes to, a codec that encodes every message, a
-- broker that accepts every message and a file system that takes every document: where the request
-- passes validation, the broker reports a queue of fewer than 10000 messages and the id drawn is new,
-- `CreateJob` returns a job; and where the payload decodes and passes `Validate`, and no statement came
-- between, `Process` returns nil for the message of that job, and the creator is then answered, with
-- the status completed, the path of the document and no error.
pub request-completes :
    {o : Outside} {table : Log → Table} (db : IsDatabase o table) (open_ : IsOpen o table)
    (live : IsLive o table) (rmq : RabbitMq) (max_retries : ℤ) (g : Generator) (user_id : String)
    (req : CreateJobRequest) (size : ℤ) (d : PdfData) (log log' : Log)
    → validate_create_job_request o req ≡ none
    → (queue_size o rmq log).0 ≡ ok size
    → leb_ℤ max_queue_size size ≡ false
    → table (queue_size o rmq log).1 (o.uuid (drawing o rmq log)) ≡ none
    → o.unmarshal_pdf_data req.payload ≡ ok d
    → validate d ≡ none
    → let s = new_service o rmq max_retries in
      Extends IsNoStatement (create_job o s user_id req log).1 log'
      → let p = new_pdf_processor (new_job_repository o) rmq g in
        (id : String) × ((create_job o s user_id req log).0 ≡ ok (job_response id))
        × (let run = process o p (new_message s id user_id req) log' in
            (run.0 ≡ none)
            × ((r : JobStatusResponse) × ((get_job_status s user_id id run.1).0 ≡ ok r)
                × (r.status ≡ completed)
                × (r.file_path ≡ some (file_path_of o g id))
                × (r.error_message ≡ none)))
request-completes {o} {table} db open_ live rmq max_retries g user_id req size d log log' passed
      asked room fresh read good between =
    let s = new_service o rmq max_retries in
    let (id, time, returned, row) =
      create_job-IsCreated db open_ rmq max_retries user_id req size log passed asked room fresh in
    (
      id,
      returned,
      process-succeeds db live rmq g s (new_message s id user_id req) d
          (inserted_row (new_job s id user_id req time)) log' refl
          (ap (λ t. t id) (Extends-table db between) ∙ row) read good,
    )
