-- ===== src/Database/Table.antt =====
-- migrations/000001_create_jobs_table.up.sql and the statements of
-- internal/repository/postgres/job_repository.go as changes of a table. The id is the primary key.
use pdf_generator.Prelude.{
  ℕ, String, Bool, true, false, ◌≡◌, ◌∷◌, [], Option, none, some, update_key,
}
use pdf_generator.Prelude.Int.{pos, int_add}
use pdf_generator.Go.{GoError, Result, err}
use pdf_generator.Domain.{Job, JobStatus, Time}
use pdf_generator.World.Sql.{Statement, insert_job, set_status, bump_retry}
use pdf_generator.World.{Act, Log, executed}

abbrev pub Table : Type 0
Table = String → Option Job

-- The columns that INSERT does not name have their defaults.
abbrev pub inserted_row : Job → Job
inserted_row job = record job {
  retry_count = pos 0;
  file_path = none;
  error_message = none;
  completed_at = none;
}

-- `UPDATE … WHERE id = …` on the row of that id, which may be missing.
abbrev pub change : (Job → Job) → Option Job → Option Job
change f none = none
change f (some job) = some (f job)

abbrev pub with_status : JobStatus → Option String → Option String → Time → Option Time → Job → Job
with_status status file_path err_msg now completed_at job = record job {
  status = status;
  file_path = file_path;
  error_message = err_msg;
  updated_at = now;
  completed_at = completed_at;
}

abbrev pub with_retry : Time → Job → Job
with_retry now job = record job { retry_count = int_add job.retry_count (pos 1); updated_at = now }

-- A row that is there is not replaced by INSERT, which then fails.
abbrev pub insert_row : Job → Option Job → Option Job
insert_row job none = some (inserted_row job)
insert_row job (some old) = some old

unfoldable pub apply : Statement → Table → Table
apply (insert_job job) t = update_key t job.id (insert_row job (t job.id))
apply (set_status id status file_path err_msg now completed_at) t =
    update_key t id (change (with_status status file_path err_msg now completed_at) (t id))
apply (bump_retry id now) t = update_key t id (change (with_retry now) (t id))

abbrev pub is_statement : Act → Bool
is_statement (executed _ _) = true
is_statement _ = false

-- The tables that a log can lead to: a statement that was answered without an error has been applied,
-- and one that was answered with an error, as by a connection that broke off, may have been.
pub data Replay (t₀ : Table) : Log → Table → Type 0 where
  start : Replay t₀ [] t₀
  applied :
      {log : Log} {t : Table} (s : Statement) (r : Result ℕ)
      → Replay t₀ log t
      → Replay t₀ (executed s r ∷ log) (apply s t)
  refused :
      {log : Log} {t : Table} (s : Statement) (e : GoError)
      → Replay t₀ log t
      → Replay t₀ (executed s (err e) ∷ log) t
  passed :
      {log : Log} {t : Table} (a : Act)
      → is_statement a ≡ false
      → Replay t₀ log t
      → Replay t₀ (a ∷ log) t
