-- ===== src/Repository/Quiet.antt =====
-- What the clients of a repository assume of its effects: it leaves no act of some kind in the log.
-- The PostgreSQL repository only looks at the clock and executes or queries statements.
use pdf_generator.Prelude.{ℕ, String, ◌≡◌, Bool, false, List, Option}
use pdf_generator.Prelude.Int.{ℤ}
use pdf_generator.Go.{Result, Failure}
use pdf_generator.Domain.{Job, JobStatus}
use pdf_generator.World.Sql.{Statement}
use pdf_generator.World.Counting.{Silent}
use pdf_generator.World.Extends.{same, more, Only}
use pdf_generator.World.{Outside, Act, clocked, executed, selected_row, selected_rows}
use pdf_generator.Repository.{JobRepository}
use pdf_generator.Repository.Postgres.{new_job_repository}

pub record IsQuiet (kind : Act → Bool) (repo : JobRepository) : Type 0 where
  pub create : (job : Job) → Silent kind (repo.create job)
  pub get_by_id : (id : String) → Silent kind (repo.get_by_id id)
  pub get_by_user_id :
      (user_id : String) (limit offset : ℤ) → Silent kind (repo.get_by_user_id user_id limit offset)
  pub update_status :
      (id : String) (status : JobStatus) (file_path err_msg : Option String)
      → Silent kind (repo.update_status id status file_path err_msg)
  pub increment_retry : (id : String) → Silent kind (repo.increment_retry id)

-- A kind that holds no database call and no reading of the clock.
pub record IsForeign (kind : Act → Bool) : Type 0 where
  pub no_clock : (t : ℕ) → kind (clocked t) ≡ false
  pub no_exec : (s : Statement) (r : Result ℕ) → kind (executed s r) ≡ false
  pub no_row : (id : String) (r : Result Job) → kind (selected_row id r) ≡ false
  pub no_rows :
      (user_id : String) (limit offset : ℤ) (r : Result (List (Result Job) × Failure))
      → kind (selected_rows user_id limit offset r) ≡ false

pub new_job_repository-IsQuiet :
    (o : Outside) (kind : Act → Bool) → IsForeign kind → IsQuiet kind (new_job_repository o)
unfolding new_job_repository
new_job_repository-IsQuiet o kind f = record {
  create = λ job. record { at = λ log. simp (f.no_exec) };
  get_by_id = λ id. record { at = λ log. simp (f.no_row) };
  get_by_user_id = λ user_id limit offset. record { at = λ log. simp (f.no_rows) };
  update_status =
      λ id status file_path err_msg. record { at = λ log. simp (f.no_exec, f.no_clock) };
  increment_retry = λ id. record { at = λ log. simp (f.no_exec, f.no_clock) };
}

-- The same, for a property of the acts that are added: what a worker uses of a repository.
pub record Stays (P : Act → Type 0) (repo : JobRepository) : Type 0 where
  pub update_status :
      (id : String) (status : JobStatus) (file_path err_msg : Option String)
      → Only P (repo.update_status id status file_path err_msg)
  pub increment_retry : (id : String) → Only P (repo.increment_retry id)

pub new_job_repository-Stays :
    (o : Outside) (P : Act → Type 0)
    → ((t : ℕ) → P (clocked t))
    → ((s : Statement) (r : Result ℕ) → P (executed s r))
    → Stays P (new_job_repository o)
unfolding new_job_repository
new_job_repository-Stays o P on_clock on_exec = record {
  update_status = λ id status file_path err_msg. record {
    at = λ log. more _ (on_exec _ _) (more _ (on_clock _) same);
  };
  increment_retry = λ id. record { at = λ log. more _ (on_exec _ _) (more _ (on_clock _) same) };
}
