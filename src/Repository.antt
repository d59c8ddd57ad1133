-- ===== src/Repository.antt =====
-- internal/repository/interfaces.go, and its implementation over PostgreSQL in a child.
pub mod Postgres
pub mod Quiet
use pdf_generator.Prelude.{String, List, Option}
use pdf_generator.Prelude.Int.{ℤ}
use pdf_generator.Go.{Result, Failure}
use pdf_generator.Domain.{Job, JobStatus}
use pdf_generator.World.{M}

pub record JobRepository : Type 0 where
  pub create : Job → M Failure
  pub get_by_id : String → M (Result Job)
  pub get_by_user_id : String → ℤ → ℤ → M (Result (List Job))
  pub update_status : String → JobStatus → Option String → Option String → M Failure
  pub increment_retry : String → M Failure
