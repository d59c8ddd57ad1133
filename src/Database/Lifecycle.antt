-- ===== src/Database/Lifecycle.antt =====
-- What the owner of a job sees of it, from the request to the document.
use text.Mathlib.Text.{◌==◌ as str_eq}
use text.Mathlib.TextPositions.{eq_refl}
use pdf_generator.Prelude.{
  ℕ, String, ◌≡◌, refl, sym, ap, subst, ◌∙◌, ◌∷◌, Option, none, some, arith, Bool-cases, inl, inr,
}
use pdf_generator.Go.{Result, ok, err, is_no_rows}
use pdf_generator.Domain.{Job, JobStatus, completed, JobStatusResponse, JobMessage, Time}
use pdf_generator.World.Sql.{set_status}
use pdf_generator.World.{Outside, Log, wrote_pdf, executed, clocked}
use pdf_generator.World.Extends.{Extends, Extends-trans}
use pdf_generator.Repository.Postgres.{
  new_job_repository, get_by_id, completed_time, found_job, updated_row, update_status,
}
use pdf_generator.Pdf.Generate.{document, file_path_of}
use pdf_generator.Worker.Processor.{PdfProcessor, process}
use pdf_generator.Worker.Completion.{completing, started, process-completes}
use pdf_generator.Service.PdfService.{PdfService, get_job_status, seen_by, status_response}
use pdf_generator.Database.Table.{Table, apply, change, with_status}
use pdf_generator.Database.Acts.{announce-Only}
use pdf_generator.Database.Oracle.{IsDatabase, IsNoStatement, Extends-table}

pub found_row : (row : Result Job) (job : Job) → found_job row ≡ ok job → row ≡ ok job
unfolding is_no_rows
found_row (ok _) job h = h
found_row (err e) job h = ground arith

pub seen_row :
    (user_id : String) (found : Result Job) (r : JobStatusResponse)
    → seen_by user_id found ≡ ok r
    → (job : Job) × (found ≡ ok job) × (r ≡ status_response job)
unfolding status_response
seen_row user_id (err e) r h = cc
seen_row user_id (ok job) r h = elim (Bool-cases (str_eq job.user_id user_id)) [
  | inl same ↦ (job, refl, ground arith)
  | inr differs ↦ ground arith
]

-- A repository that accepts the new status of a row has had the statement answered without an error.
accepted_rows : (answer : Result ℕ) → updated_row answer ≡ none → (n : ℕ) × (answer ≡ ok n)
accepted_rows (err e) h = cc
accepted_rows (ok n) h = (n, refl)

-- The three fields of a row that a change of its status sets.
IsUpdated : JobStatus → Option String → Option String → Job → Type 0
IsUpdated status file_path err_msg job =
    (job.status ≡ status) × (job.file_path ≡ file_path) × (job.error_message ≡ err_msg)

set_row :
    (status : JobStatus) (file_path err_msg : Option String) (now : Time) (ended : Option Time)
    (row : Option Job) (job : Job)
    → change (with_status status file_path err_msg now ended) row ≡ some job
    → IsUpdated status file_path err_msg job
unfolding IsUpdated
set_row status file_path err_msg now ended none job h = cc
set_row status file_path err_msg now ended (some old) job h =
    (ground arith, ground arith, ground arith)

set_here :
    (id : String) (status : JobStatus) (file_path err_msg : Option String) (now : Time)
    (ended : Option Time) (t : Table) (job : Job)
    → apply (set_status id status file_path err_msg now ended) t id ≡ some job
    → IsUpdated status file_path err_msg job
unfolding apply
set_here id status file_path err_msg now ended t job there =
    set_row status file_path err_msg now ended (t id) job (rw (eq_refl id) at there)

module _ {o : Outside} {table : Log → Table} (db : IsDatabase o table) where
  -- A status that the repository accepted is the status of the row, with the fields that came with it.
  update_status-IsUpdated :
      (id : String) (status : JobStatus) (file_path err_msg : Option String) (log : Log) (job : Job)
      → (update_status o id status file_path err_msg log).0 ≡ none
      → table (update_status o id status file_path err_msg log).1 id ≡ some job
      → IsUpdated status file_path err_msg job
  unfolding update_status
  update_status-IsUpdated id status file_path err_msg log job accepted there =
      let (n, answered) = accepted_rows _ accepted in
      let now = o.now log in
      let stmt = set_status id status file_path err_msg now (completed_time status now) in
      set_here id status file_path err_msg now (completed_time status now)
        (table (clocked now ∷ log)) job
        (ap (λ t. t id) (sym (db.applied stmt n (clocked now ∷ log)))
          ∙ ap (λ r. table (executed stmt r ∷ clocked now ∷ log) id) (sym answered)
          ∙ there)

  -- What is seen of a row, while nothing but questions and messages follows the change of it.
  pub seen_set :
      (s : PdfService) (user_id id : String) (status : JobStatus)
      (file_path err_msg : Option String) (log log' : Log) (r : JobStatusResponse)
      → s.repo ≡ new_job_repository o
      → (update_status o id status file_path err_msg log).0 ≡ none
      → Extends IsNoStatement (update_status o id status file_path err_msg log).1 log'
      → (get_job_status s user_id id log').0 ≡ ok r
      → (r.status ≡ status) × (r.file_path ≡ file_path) × (r.error_message ≡ err_msg)
  unfolding get_job_status new_job_repository get_by_id status_response IsUpdated
  seen_set s user_id id status file_path err_msg log log' r same accepted later seen =
      let (job, found, shown) = seen_row user_id _ r (rw same at seen) in
      let row = db.read log' id job (found_row _ job found) in
      let (a, b, c) =
        update_status-IsUpdated id status file_path err_msg log job accepted
          (ap (λ t. t id) (sym (Extends-table db later)) ∙ row) in
      (
        ap (λ q. q.status) shown ∙ a,
        ap (λ q. q.file_path) shown ∙ b,
        ap (λ q. q.error_message) shown ∙ c,
      )

-- Where `Process` returned nil and only questions and messages followed, over a database that no one
-- else writes to and through which service and worker both go, a status that the service then shows
-- to anyone for this job is completed, with the path of the document that was written, and has no
-- error text.
pub process-visible :
    {o : Outside} {table : Log → Table} (db : IsDatabase o table) (p : PdfProcessor)
    (s : PdfService) (msg : JobMessage) (user_id : String) (log log' : Log) (r : JobStatusResponse)
    → p.repo ≡ new_job_repository o
    → s.repo ≡ new_job_repository o
    → (process o p msg log).0 ≡ none
    → Extends IsNoStatement (process o p msg log).1 log'
    → (get_job_status s user_id msg.job_id log').0 ≡ ok r
    → (r.status ≡ completed)
      × (r.file_path ≡ some (file_path_of o p.generator msg.job_id))
      × (r.error_message ≡ none)
unfolding new_job_repository
process-visible {o} {table} db p s msg user_id log log' r worker service returned later seen =
    let (begun, (d, path, read, passed, path_is, accepted, after)) =
      process-completes o p msg log returned in
    let l = wrote_pdf path (document msg.job_id msg.template_name d) none ∷ started o p msg log in
    let ext =
      Extends-trans
        ((announce-Only (λ a h. h) o p msg.job_id msg.user_id completed (some path) none).at
          (completing o p msg path l).1)
        (subst (λ x. Extends IsNoStatement x log') after later) in
    let (a, b, c) =
      seen_set db s user_id msg.job_id completed (some path) none l log' r service
        (ap (λ q. (q.update_status msg.job_id completed (some path) none l).0) (sym worker)
          ∙ accepted)
        (subst
          (λ q.
            Extends IsNoStatement (q.update_status msg.job_id completed (some path) none l).1 log')
          worker ext)
        seen in
    (a, b ∙ ap some path_is, c)
