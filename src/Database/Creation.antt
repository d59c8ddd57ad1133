-- ===== src/Database/Creation.antt =====
-- What is seen of a job that `CreateJob` has returned.
use text.Mathlib.TextPositions.{eq_refl}
use pdf_generator.Prelude.{
  ℕ, String, ◌≡◌, refl, sym, ap, subst, ◌∙◌, ◌∷◌, Option, none, some, List, Bool-cases, inl, inr,
}
use pdf_generator.Prelude.Int.{ℤ, leb_ℤ}
use pdf_generator.Go.{ValidationError, Result, ok, err, Failure}
use pdf_generator.Domain.{
  Job, pending, CreateJobRequest, JobResponse, JobStatusResponse, Bytes, Time,
}
use pdf_generator.World.Sql.{insert_job}
use pdf_generator.World.{Outside, Log, executed, clocked, drew_uuid}
use pdf_generator.World.Extends.{Extends, Extends-trans, same, more}
use pdf_generator.Repository.Postgres.{create, exec_failure, new_job_repository, get_by_id}
use pdf_generator.Queue.Publish.{publish_job}
use pdf_generator.Service.PdfService.{
  PdfService, max_queue_size, new_job, job_response, report_queued, enqueue_body, enqueue,
  store_and_enqueue, check_size, create_valid, create_job, get_job_status, status_response,
}
use pdf_generator.Database.Table.{Table, apply, inserted_row}
use pdf_generator.Database.Oracle.{IsDatabase, IsNoStatement, Extends-table}
use pdf_generator.Database.Lifecycle.{found_row, seen_row}
use pdf_generator.Service.Access.{get_job_status_own}

module _ (o : Outside) (s : PdfService) (user_id : String) (req : CreateJobRequest) where
  -- A job that was stored, and after which no statement followed.
  record IsStored (job_id : String) (log : Log) : Type 0 where
    before : Log
    time : Time
    accepted : (s.repo.create (new_job s job_id user_id req time) before).0 ≡ none
    after : Extends IsNoStatement (s.repo.create (new_job s job_id user_id req time) before).1 log

  reported :
      (job_id : String) (f : Failure) (log : Log) (resp : JobResponse)
      → (report_queued s job_id f log).0 ≡ ok resp
      → ((report_queued s job_id f log).1 ≡ log) × (resp ≡ job_response job_id)
  unfolding report_queued
  reported job_id (some e) log resp h = cc
  reported job_id none log resp h = (refl, cc)

  body_queued :
      (job_id : String) (body : Result Bytes) (log : Log) (resp : JobResponse)
      → (enqueue_body o s job_id body log).0 ≡ ok resp
      → Extends IsNoStatement log (enqueue_body o s job_id body log).1
        × (resp ≡ job_response job_id)
  unfolding enqueue_body publish_job
  body_queued job_id (err e) log resp h = cc
  body_queued job_id (ok body) log resp h =
      let (whole, is_job) = reported job_id _ _ resp h in
      (rw whole (more _ refl (more _ refl same)), is_job)

  queued_after :
      (job_id : String) (f : Failure) (log : Log) (resp : JobResponse)
      → (enqueue o s job_id user_id req f log).0 ≡ ok resp
      → (f ≡ none)
        × Extends IsNoStatement log (enqueue o s job_id user_id req f log).1
        × (resp ≡ job_response job_id)
  unfolding enqueue
  queued_after job_id (some e) log resp h = cc
  queued_after job_id none log resp h =
      let (after, is_job) = body_queued job_id _ log resp h in (refl, after, is_job)

  store_and_enqueue-IsStored :
      (log : Log) (resp : JobResponse)
      → (store_and_enqueue o s user_id req log).0 ≡ ok resp
      → IsStored resp.id (store_and_enqueue o s user_id req log).1
  unfolding store_and_enqueue
  store_and_enqueue-IsStored log resp h =
      let job_id = o.uuid (clocked (o.now log) ∷ log) in
      let (accepted, after, is_job) = queued_after job_id _ _ resp h in
      subst (λ i. IsStored i (store_and_enqueue o s user_id req log).1)
        (sym (ap (λ r. r.id) is_job))
        (record {
          before = drew_uuid job_id ∷ clocked (o.now log) ∷ log;
          time = o.now log;
          accepted = accepted;
          after = after;
        })

  check_size-IsStored :
      (size : Result ℤ) (log : Log) (resp : JobResponse)
      → (check_size o s user_id req size log).0 ≡ ok resp
      → IsStored resp.id (check_size o s user_id req size log).1
  unfolding check_size
  check_size-IsStored (err e) log resp h = store_and_enqueue-IsStored log resp h
  check_size-IsStored (ok size) log resp h = elim (Bool-cases (leb_ℤ max_queue_size size)) [
    | inl full ↦ cc
    | inr room ↦ rw room (store_and_enqueue-IsStored log resp (rw room at h))
  ]

  create_valid-IsStored :
      (v : Option (List ValidationError)) (log : Log) (resp : JobResponse)
      → (create_valid o s user_id req v log).0 ≡ ok resp
      → IsStored resp.id (create_valid o s user_id req v log).1
  unfolding create_valid
  create_valid-IsStored (some errs) log resp h = cc
  create_valid-IsStored none log resp h = check_size-IsStored _ _ resp h

  create_job-IsStored :
      (log : Log) (resp : JobResponse)
      → (create_job o s user_id req log).0 ≡ ok resp
      → IsStored resp.id (create_job o s user_id req log).1
  unfolding create_job
  create_job-IsStored log resp h = create_valid-IsStored _ log resp h

inserted_ok :
    (answer : Result ℕ) → exec_failure "create job: " answer ≡ none → (n : ℕ) × (answer ≡ ok n)
inserted_ok (err e) h = cc
inserted_ok (ok n) h = (n, refl)

inserted_here :
    (job : Job) (t : Table)
    → t job.id ≡ none
    → apply (insert_job job) t job.id ≡ some (inserted_row job)
unfolding apply
inserted_here job t h = rw (eq_refl job.id) (rw h refl)

-- The row of a job that PostgreSQL has taken.
pub created_row :
    {o : Outside} {table : Log → Table} (db : IsDatabase o table) (job : Job) (log : Log)
    → (create o job log).0 ≡ none
    → table (create o job log).1 job.id ≡ some (inserted_row job)
unfolding create
created_row {o} {table} db job log h =
    let (n, answer) = inserted_ok _ h in
    ap (λ r. table (executed (insert_job job) r ∷ log) job.id) answer
    ∙ ap (λ t. t job.id) (db.applied (insert_job job) n log)
    ∙ inserted_here job (table log) (db.inserted log job n answer)

-- Where `CreateJob` returned a job and only questions and messages followed, over a database that no one
-- else writes to, a status that the service then shows of this job is shown to the user who created it
-- and to no one else, and it is pending, without a file and without an error.
pub create_job-visible :
    {o : Outside} {table : Log → Table} (db : IsDatabase o table) (s : PdfService)
    (user_id viewer : String) (req : CreateJobRequest) (resp : JobResponse) (log log' : Log)
    (r : JobStatusResponse)
    → s.repo ≡ new_job_repository o
    → (create_job o s user_id req log).0 ≡ ok resp
    → Extends IsNoStatement (create_job o s user_id req log).1 log'
    → (get_job_status s viewer resp.id log').0 ≡ ok r
    → (viewer ≡ user_id) × (r.status ≡ pending) × (r.file_path ≡ none) × (r.error_message ≡ none)
unfolding get_job_status new_job_repository get_by_id status_response
create_job-visible {o} {table} db s user_id viewer req resp log log' r over returned later seen =
    let stored = create_job-IsStored o s user_id req log resp returned in
    let job = new_job s resp.id user_id req stored.time in
    let (found, read, shown) = seen_row viewer _ r (rw over at seen) in
    let row =
      created_row db job stored.before
        (ap (λ repo. (repo.create job stored.before).0) (sym over) ∙ stored.accepted) in
    let kept =
      Extends-table db (Extends-trans stored.after later)
      ∙ ap (λ repo. table (repo.create job stored.before).1) over in
    let is_row = row_inj (
      sym (db.read log' resp.id found (found_row _ found read)) ∙ ap (λ t. t resp.id) kept ∙ row) in
    (
      sym (get_job_status_own s viewer resp.id log' r seen)
          ∙ ap (λ x. x.user_id) shown
          ∙ ap (λ x. x.user_id) is_row,
      ap (λ x. x.status) shown ∙ ap (λ x. x.status) is_row,
      ap (λ x. x.file_path) shown ∙ ap (λ x. x.file_path) is_row,
      ap (λ x. x.error_message) shown ∙ ap (λ x. x.error_message) is_row,
    )
  where
    row_inj : {x y : Job} → some x ≡ some y → x ≡ y
    row_inj e = cc
