-- ===== src/Database/Failure.antt =====
-- What the owner of a job sees of it when the worker has given it up.
use Prim.Native.String.{◌++◌}
use pdf_generator.Prelude.{String, ◌≡◌, false, none, some}
use pdf_generator.Prelude.Int.{leb_ℤ}
use pdf_generator.Go.{GoError, ok, error_text}
use pdf_generator.Domain.{JobStatusResponse, JobMessage, failed}
use pdf_generator.World.{Outside, Log, ack}
use pdf_generator.World.Extends.{Extends, Extends-trans}
use pdf_generator.Repository.Postgres.{new_job_repository, update_status, increment_retry}
use pdf_generator.Worker.Processor.{process, parse_message}
use pdf_generator.Worker.Pool.{
  Pool, Delivery, next_retry, give_up, handle_failure, settle, process_parsed, process_message,
}
use pdf_generator.Service.PdfService.{PdfService, get_job_status}
use pdf_generator.Database.Table.{Table}
use pdf_generator.Database.Acts.{send_dlq_body-Only}
use pdf_generator.Database.Oracle.{IsDatabase, IsNoStatement}
use pdf_generator.Database.Lifecycle.{seen_set}

-- The log at the moment at which a failed job is given up.
abbrev pub giving_up : Outside → Delivery → JobMessage → Log → Log
giving_up o d msg log = (increment_retry o msg.job_id (ack o d.tag false log).1).1

abbrev pub exhausted : GoError → String
exhausted e = "all retries exhausted: " ++ error_text e

module _ {o : Outside} {table : Log → Table} (db : IsDatabase o table) (p : Pool) (s : PdfService)
    (d : Delivery) (msg : JobMessage) (e : GoError) (user_id : String) (r : JobStatusResponse)
    (worker : p.repo ≡ new_job_repository o) (service : s.repo ≡ new_job_repository o)
    (over : leb_ℤ (next_retry msg) p.max_retries ≡ false) where
  handle_failure-visible :
      (log log' : Log)
      → (update_status o msg.job_id failed none (some (exhausted e)) (giving_up o d msg log)).0
        ≡ none
      → Extends IsNoStatement (handle_failure o p d msg e log).1 log'
      → (get_job_status s user_id msg.job_id log').0 ≡ ok r
      → (r.status ≡ failed) × (r.file_path ≡ none) × (r.error_message ≡ some (exhausted e))
  unfolding handle_failure give_up new_job_repository pdf_generator.Worker.Pool.send_dlq_body
  handle_failure-visible log log' accepted later seen =
      seen_set db s user_id msg.job_id failed none (some (exhausted e)) (giving_up o d msg log) log'
        r service accepted
        (Extends-trans ((send_dlq_body-Only (λ a h. h) o p (o.marshal_message msg)).at _)
          (rw (over, worker) at later))
        seen

-- Where `Process` failed for a message without a retry left, the repository accepted the status
-- failed, and only questions and messages followed, over a database that no one else writes to and
-- through which service and worker both go, a status that the service then shows to anyone for this
-- job is failed, without a file, and with the text of that error behind "all retries exhausted".
pub given_up-visible :
    {o : Outside} {table : Log → Table} (db : IsDatabase o table) (p : Pool) (s : PdfService)
    (d : Delivery) (msg : JobMessage) (e : GoError) (user_id : String) (log log' : Log)
    (r : JobStatusResponse)
    → p.repo ≡ new_job_repository o
    → s.repo ≡ new_job_repository o
    → parse_message o d.body ≡ ok msg
    → (process o p.processor msg log).0 ≡ some e
    → leb_ℤ (next_retry msg) p.max_retries ≡ false
    → (update_status o msg.job_id failed none
        (some (exhausted e))
        (giving_up o d msg (process o p.processor msg log).1)).0
      ≡ none
    → Extends IsNoStatement (process_message o p d log).1 log'
    → (get_job_status s user_id msg.job_id log').0 ≡ ok r
    → (r.status ≡ failed) × (r.file_path ≡ none) × (r.error_message ≡ some (exhausted e))
unfolding process_message process_parsed settle
given_up-visible db p s d msg e user_id log log' r worker service parsed ended over accepted later
      seen =
    handle_failure-visible db p s d msg e user_id r worker service over _ log' accepted
      (rw (parsed, ended) at later) seen
