-- ===== src/World/Sql.antt =====
-- The statements that internal/repository/postgres/job_repository.go sends with `pool.Exec`.
use pdf_generator.Prelude.{String, Option}
use pdf_generator.Domain.{Job, JobStatus, Time}

pub data Statement : Type 0 where
  -- INSERT INTO jobs (id, user_id, template_name, payload, status, max_retries, created_at,
  -- updated_at): the job is a carrier of those eight values
  insert_job : Job → Statement
  -- UPDATE jobs SET status, file_path, error_message, updated_at, completed_at WHERE id
  set_status : String → JobStatus → Option String → Option String → Time → Option Time → Statement
  -- UPDATE jobs SET retry_count = retry_count + 1, updated_at WHERE id
  bump_retry : String → Time → Statement
