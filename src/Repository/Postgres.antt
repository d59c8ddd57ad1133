-- ===== src/Repository/Postgres.antt =====
-- internal/repository/postgres/job_repository.go over the answers of pgx. A `context` that ends
-- shows as an error of the call.
use pdf_generator.Prelude.{ℕ, String, List, [], ◌∷◌, Option, none, some, ◌==◌, if◌then◌else◌}
use pdf_generator.Prelude.Int.{ℤ}
use pdf_generator.Go.{Result, ok, err, Failure, sentinel, err_job_not_found, wrap, is_no_rows}
use pdf_generator.Domain.{Job, JobStatus, pending, processing, completed, failed, Time}
use pdf_generator.World.Sql.{insert_job, set_status, bump_retry}
use pdf_generator.World.{Outside, M, ◌>>=◌, pure, clock, exec, query_row, query}
use pdf_generator.Repository.{JobRepository}

-- `_, err := Exec(…)`: the error with a text before it.
abbrev pub exec_failure : String → Result ℕ → Failure
exec_failure before (ok _) = none
exec_failure before (err e) = some (wrap before e)

unfoldable pub create : Outside → Job → M Failure
create o job = do result ← exec o (insert_job job); pure (exec_failure "create job: " result)

abbrev pub found_job : Result Job → Result Job
unfolding is_no_rows
found_job (ok job) = ok job
found_job (err e) =
    if is_no_rows e then err (sentinel err_job_not_found) else err (wrap "get job: " e)

unfoldable pub get_by_id : Outside → String → M (Result Job)
unfolding is_no_rows
get_by_id o id = do row ← query_row o id; pure (found_job row)

-- The loop over `rows.Next()`: the first row that cannot be read ends it.
unfoldable pub scan_jobs : List (Result Job) → Result (List Job)
scan_jobs [] = ok []
scan_jobs (err e ∷ rows) = err (wrap "scan job: " e)
scan_jobs (ok job ∷ rows) = elim (scan_jobs rows) [ ok jobs ↦ ok (job ∷ jobs) | err e ↦ err e ]

-- `rows.Err()` is not looked at.
abbrev listed_jobs : Result (List (Result Job) × Failure) → Result (List Job)
listed_jobs (ok (rows, _)) = scan_jobs rows
listed_jobs (err e) = err (wrap "query jobs: " e)

unfoldable pub get_by_user_id : Outside → String → ℤ → ℤ → M (Result (List Job))
unfolding scan_jobs
get_by_user_id o user_id limit offset = do
  rows ← query o user_id limit offset
  pure (listed_jobs rows)

-- `completedAt` is set exactly for the two final statuses.
abbrev pub completed_time : JobStatus → Time → Option Time
completed_time pending now = none
completed_time processing now = none
completed_time completed now = some now
completed_time failed now = some now

abbrev pub updated_row : Result ℕ → Failure
updated_row (err e) = some (wrap "update status: " e)
updated_row (ok rows) = if rows == 0 then some (sentinel err_job_not_found) else none

unfoldable pub update_status :
    Outside → String → JobStatus → Option String → Option String → M Failure
update_status o id status file_path err_msg = do
  now ← clock o
  result ← exec o (set_status id status file_path err_msg now (completed_time status now))
  pure (updated_row result)

unfoldable pub increment_retry : Outside → String → M Failure
increment_retry o id = do
  now ← clock o
  result ← exec o (bump_retry id now)
  pure (exec_failure "increment retry: " result)

unfoldable pub new_job_repository : Outside → JobRepository
unfolding create get_by_id get_by_user_id update_status increment_retry
new_job_repository o = record {
  create = create o;
  get_by_id = get_by_id o;
  get_by_user_id = get_by_user_id o;
  update_status = update_status o;
  increment_retry = increment_retry o;
}
