-- ===== src/Service/Access.antt =====
-- `GetJobStatus` and `ListJobs`: who sees what, and how much of it.
use text.Mathlib.TextEquality.{eq_iff}
use pdf_generator.Prelude.{String, ◌≡◌, ◌≢◌, ◌↔◌, refl, List, [], ◌∷◌, map, arith, ◌⊎◌}
use pdf_generator.Prelude.Int.{ℤ, pos, ◌≤ℤ◌}
use pdf_generator.Go.{Result, ok, err, Failure, sentinel, err_forbidden}
use pdf_generator.Domain.{Job, JobStatusResponse}
use pdf_generator.World.{Outside, Log}
use pdf_generator.Repository.Postgres.{new_job_repository, scan_jobs}
use pdf_generator.Service.PdfService.{
  PdfService, status_response, seen_by, get_job_status, page_limit, page_offset, list_jobs,
}

module _ (s : PdfService) (user_id job_id : String) (log : Log) where
  -- For a job that the repository finds, the stored fields are returned exactly where the job
  -- belongs to the user, and the forbidden error exactly where it does not.
  pub get_job_status_owner :
      (job : Job)
      → (s.repo.get_by_id job_id log).0 ≡ ok job
      → (((get_job_status s user_id job_id log).0 ≡ ok (status_response job))
          ↔ (job.user_id ≡ user_id))
        × (((get_job_status s user_id job_id log).0 ≡ err (sentinel err_forbidden))
            ↔ (job.user_id ≢ user_id))
  unfolding get_job_status
  get_job_status_owner job found =
      (ground (arith, eq_iff job.user_id user_id), ground (arith, eq_iff job.user_id user_id))

  seen_own :
      (found : Result Job) (r : JobStatusResponse)
      → seen_by user_id found ≡ ok r
      → r.user_id ≡ user_id
  unfolding status_response
  seen_own (err e) r h = cc
  seen_own (ok job) r h = ground (arith, eq_iff job.user_id user_id)

  -- Whatever the repository answers, a status that is returned is one of the user's own jobs.
  pub get_job_status_own :
      (r : JobStatusResponse) → (get_job_status s user_id job_id log).0 ≡ ok r → r.user_id ≡ user_id
  unfolding get_job_status status_response
  get_job_status_own r e = seen_own _ r e

-- A page holds between 1 and 100 jobs and starts at 0 or later; a limit, and an offset, is kept
-- exactly where it is in range, and a limit that is not kept becomes 20.
pub page_bounds :
    (limit offset : ℤ)
    → (pos 1 ≤ℤ page_limit limit)
      × (page_limit limit ≤ℤ pos 100)
      × (pos 0 ≤ℤ page_offset offset)
      × ((page_limit limit ≡ limit) ↔ ((pos 1 ≤ℤ limit) × (limit ≤ℤ pos 100)))
      × ((page_limit limit ≡ limit) ⊎ (page_limit limit ≡ pos 20))
      × ((page_offset offset ≡ offset) ↔ (pos 0 ≤ℤ offset))
unfolding page_limit page_offset
page_bounds limit offset =
    (ground arith, ground arith, ground arith, ground arith, ground arith, ground arith)

-- The rows that could all be read.
abbrev pub read_all : List Job → List (Result Job)
read_all = map ok

scan-read_all : (jobs : List Job) → scan_jobs (read_all jobs) ≡ ok jobs
unfolding scan_jobs
scan-read_all [] = refl
scan-read_all (job ∷ jobs) = rw (scan-read_all jobs)

-- Over PostgreSQL, where every row of the page that is asked for can be read, these rows are
-- returned in their order, also where `rows.Err()` would say that the reading broke off.
pub list_jobs-reads :
    (o : Outside) (s : PdfService) (user_id : String) (limit offset : ℤ) (log : Log)
    (jobs : List Job) (broken : Failure)
    → s.repo ≡ new_job_repository o
    → o.query log user_id (page_limit limit) (page_offset offset) ≡ ok (read_all jobs, broken)
    → (list_jobs s user_id limit offset log).0 ≡ ok (map status_response jobs)
unfolding list_jobs new_job_repository
list_jobs-reads o s user_id limit offset log jobs broken same answer =
    rw same (rw (answer, scan-read_all jobs))
