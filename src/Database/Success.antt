-- ===== src/Database/Success.antt =====
-- A job whose row is there and whose payload is good, in a world that works: it comes to its end.
use text.Mathlib.TextPositions.{eq_refl}
use pdf_generator.Prelude.{String, List, ◌≡◌, refl, sym, ap, subst, ◌∙◌, ◌∷◌, Option, none, some}
use pdf_generator.Go.{ok, Failure}
use pdf_generator.Domain.{
  Job, JobStatus, processing, completed, JobStatusResponse, JobMessage, Bytes, Time,
}
use pdf_generator.World.Sql.{set_status}
use pdf_generator.World.Drawing.{Draw}
use pdf_generator.World.{Outside, Log, PdfData, wrote_pdf, executed, clocked}
use pdf_generator.World.Extends.{same}
use pdf_generator.Repository.Postgres.{new_job_repository, get_by_id, completed_time, update_status}
use pdf_generator.Queue.Connection.{RabbitMq}
use pdf_generator.Pdf.Generate.{
  Generator, validate, document, file_path_of, draw_and_write, generate_checked, generate_parsed,
  generate,
}
use pdf_generator.Worker.Processor.{
  PdfProcessor, new_pdf_processor, announce, report_completed, report_generated, process_started,
  process,
}
use pdf_generator.Service.PdfService.{PdfService, get_job_status, status_response}
use pdf_generator.Database.Table.{Table, apply, with_status}
use pdf_generator.Database.Acts.{announce-Only}
use pdf_generator.Database.Oracle.{IsDatabase, Extends-table}
use pdf_generator.Database.Lifecycle.{process-visible}

-- A database that is up: an UPDATE of a row that is there changes that one row, and a row that is
-- there is found. The file system takes every document.
pub record IsLive (o : Outside) (table : Log → Table) : Type 0 where
  pub updates :
      (log : Log) (id : String) (job : Job) (status : JobStatus) (path msg : Option String)
      (now : Time) (ended : Option Time)
      → table log id ≡ some job
      → o.exec log (set_status id status path msg now ended) ≡ ok 1
  pub found :
      (log : Log) (id : String) (job : Job) → table log id ≡ some job → o.query_row log id ≡ ok job
  pub writes : (log : Log) (path : String) (ops : List Draw) → o.write_pdf log path ops ≡ none

-- The row of an id, with its owner.
abbrev Owned : Option Job → String → Type 0
Owned row user_id = (job : Job) × (row ≡ some job) × (job.user_id ≡ user_id)

apply-Owned :
    (id : String) (status : JobStatus) (path msg : Option String) (now : Time) (ended : Option Time)
    (t : Table) (user_id : String)
    → Owned (t id) user_id
    → Owned (apply (set_status id status path msg now ended) t id) user_id
unfolding apply
apply-Owned id status path msg now ended t user_id (job, there, owner) =
    (with_status status path msg now ended job, rw (eq_refl id) (rw there refl), owner)

module _ {o : Outside} {table : Log → Table} (db : IsDatabase o table) (live : IsLive o table) where
  -- A change of the status of a row that is there is accepted, and the row keeps its owner.
  update_status-accepted :
      (id user_id : String) (status : JobStatus) (path msg : Option String) (log : Log)
      → Owned (table log id) user_id
      → ((update_status o id status path msg log).0 ≡ none)
        × Owned (table (update_status o id status path msg log).1 id) user_id
  unfolding update_status
  update_status-accepted id user_id status path msg log (job, there, owner) =
      let now = o.now log in
      let stmt = set_status id status path msg now (completed_time status now) in
      let here = db.passed (clocked now) log refl in
      let answer =
        live.updates (clocked now ∷ log) id job status path msg now (completed_time status now)
          (ap (λ t. t id) here ∙ there) in
      (
        rw answer refl,
        subst (λ r. Owned (table (executed stmt r ∷ clocked now ∷ log) id) user_id) (sym answer)
            (subst (λ t. Owned (t id) user_id) (sym (db.applied stmt 1 (clocked now ∷ log)))
              (apply-Owned id status path msg now (completed_time status now)
                (table (clocked now ∷ log)) user_id
                (subst (λ t. Owned (t id) user_id) (sym here) (job, there, owner)))),
      )

  -- `Generate` of a good payload writes the document.
  generate-written :
      (g : Generator) (job_id template : String) (payload : Bytes) (d : PdfData) (log : Log)
      → o.unmarshal_pdf_data payload ≡ ok d
      → validate d ≡ none
      → generate o g job_id template payload log ≡ (
        ok (file_path_of o g job_id),
        wrote_pdf (file_path_of o g job_id) (document job_id template d) none ∷ log,
      )
  unfolding generate generate_parsed generate_checked draw_and_write
  generate-written g job_id template payload d log read passed =
      rw (read, passed)
        (rw (live.writes log (file_path_of o g job_id) (document job_id template d)) refl)

  -- A run that returned nil and left the row to its owner.
  abbrev Ended : JobMessage → String → Failure × Log → Type 0
  Ended msg user_id r = (r.0 ≡ none) × Owned (table r.1 msg.job_id) user_id

  -- The worker of `main` on a message whose row is there and whose payload is good.
  module _ (rmq : RabbitMq) (g : Generator) (msg : JobMessage) (user_id : String) (d : PdfData)
      (read : o.unmarshal_pdf_data msg.payload ≡ ok d) (passed : validate d ≡ none) where
    abbrev worker_of : PdfProcessor
    worker_of = new_pdf_processor (new_job_repository o) rmq g

    announce-Owned :
        (status : JobStatus) (path msg_text : Option String) (log : Log)
        → Owned (table log msg.job_id) user_id
        → Owned
            (table
              (announce o worker_of msg.job_id msg.user_id status path msg_text log).1
              msg.job_id)
            user_id
    announce-Owned status path msg_text log own =
        subst (λ t. Owned (t msg.job_id) user_id)
          (sym (
            Extends-table db (
              (announce-Only (λ a h. h) o worker_of msg.job_id msg.user_id status path msg_text).at
                log)))
          own

    report_generated-Owned :
        (path : String) (log : Log)
        → Owned (table log msg.job_id) user_id
        → ((report_generated o worker_of msg (ok path) log).0 ≡ none)
          × Owned (table (report_generated o worker_of msg (ok path) log).1 msg.job_id) user_id
    unfolding report_generated report_completed new_job_repository
    report_generated-Owned path log own =
        let (accepted, own') =
          update_status-accepted msg.job_id user_id completed (some path) none log own in
        (rw accepted refl, rw accepted (announce-Owned completed (some path) none _ own'))

    process-Owned :
        (log : Log)
        → Owned (table log msg.job_id) user_id
        → ((process o worker_of msg log).0 ≡ none)
          × Owned (table (process o worker_of msg log).1 msg.job_id) user_id
    unfolding process process_started new_job_repository
    process-Owned log own =
        let (accepted, own') =
          update_status-accepted msg.job_id user_id processing none none log own in
        let before : Log = (update_status o msg.job_id processing none none log).1 in
        let at_work : Log =
          (announce o worker_of msg.job_id msg.user_id processing none none before).1 in
        let path : String = file_path_of o g msg.job_id in
        let wrote = wrote_pdf path (document msg.job_id msg.template_name d) none in
        let here =
          subst (λ t. Owned (t msg.job_id) user_id) (sym (db.passed wrote at_work refl))
            (announce-Owned processing none none before own') in
        subst (λ f. Ended msg user_id (process_started o worker_of msg f before)) (sym accepted)
          (subst (λ q. Ended msg user_id (report_generated o worker_of msg q.0 q.1))
            (sym
              (generate-written g msg.job_id msg.template_name msg.payload d at_work read passed))
            (report_generated-Owned path (wrote ∷ at_work) here))

get_job_status-found :
    (o : Outside) (s : PdfService) (job_id user_id : String) (log : Log) (job : Job)
    → s.repo ≡ new_job_repository o
    → o.query_row log job_id ≡ ok job
    → job.user_id ≡ user_id
    → (get_job_status s user_id job_id log).0 ≡ ok (status_response job)
unfolding get_job_status new_job_repository get_by_id
get_job_status-found o s job_id user_id log job service answer owner =
    rw (service, answer, owner, eq_refl user_id) refl

-- Over a database that is up and that no one else writes to, and a file system that takes every
-- document: for a message whose row is there and whose payload decodes and passes `Validate`, `Process`
-- returns nil, and the owner of the row is then answered, with the status completed, the path of the
-- document and no error.
pub process-succeeds :
    {o : Outside} {table : Log → Table} (db : IsDatabase o table) (live : IsLive o table)
    (rmq : RabbitMq) (g : Generator) (s : PdfService) (msg : JobMessage) (d : PdfData) (job : Job)
    (log : Log)
    → s.repo ≡ new_job_repository o
    → table log msg.job_id ≡ some job
    → o.unmarshal_pdf_data msg.payload ≡ ok d
    → validate d ≡ none
    → let p = new_pdf_processor (new_job_repository o) rmq g in
      ((process o p msg log).0 ≡ none)
      × ((r : JobStatusResponse) × ((get_job_status s job.user_id msg.job_id
              (process o p msg log).1).0
            ≡ ok r)
          × (r.status ≡ completed)
          × (r.file_path ≡ some (file_path_of o g msg.job_id))
          × (r.error_message ≡ none))
process-succeeds {o} db live rmq g s msg d job log service there read passed =
    let p : PdfProcessor = new_pdf_processor (new_job_repository o) rmq g in
    let (returned, (row, here, owner)) =
      process-Owned db live rmq g msg job.user_id d read passed log (job, there, refl) in
    let after : Log = (process o p msg log).1 in
    let seen =
      get_job_status-found o s msg.job_id job.user_id after row service
        (live.found after msg.job_id row here) owner in
    let (status, path, text) =
      process-visible db p s msg job.user_id log after (status_response row) refl service returned
        same seen in
    (returned, (status_response row, seen, status, path, text))
