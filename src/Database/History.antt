-- ===== src/Database/History.antt =====
-- The rows of the table after any calls of the API and of the workers, in any order.
use pdf_generator.Prelude.{String, [], ◌≡◌, All}
use pdf_generator.Domain.{CreateJobRequest}
use pdf_generator.World.{Outside, Act, Log}
use pdf_generator.World.Extends.{Extends-All}
use pdf_generator.Repository.{JobRepository}
use pdf_generator.Repository.Postgres.{new_job_repository}
use pdf_generator.Worker.Pool.{Pool, Delivery, process_message}
use pdf_generator.Service.PdfService.{PdfService, create_job}
use pdf_generator.Database.Table.{Table, Replay}
use pdf_generator.Database.Acts.{IsFree, Stores, process_message-Only, create_job-Only}
use pdf_generator.Database.Shape.{
  IsValid, Replay-IsValid, IsShapedAct-IsFree, new_job_repository-Stores,
}

-- The logs of calls that run one after the other.
pub data History (o : Outside) : Log → Type 0 where
  nothing : History o []
  created :
      {log : Log} (s : PdfService) (user_id : String) (req : CreateJobRequest)
      → s.repo ≡ new_job_repository o
      → History o log
      → History o (create_job o s user_id req log).1
  processed :
      {log : Log} (p : Pool) (d : Delivery)
      → p.repo ≡ new_job_repository o
      → p.processor.repo ≡ new_job_repository o
      → History o log
      → History o (process_message o p d log).1

-- What holds of every act that a repository over PostgreSQL and the calls add holds of a history.
module _ {P : Act → Type 0} (free : IsFree P) (o : Outside)
    (stores : Stores P (new_job_repository o)) where
  repo-Stores : (repo : JobRepository) → repo ≡ new_job_repository o → Stores P repo
  repo-Stores repo same = rw same stores

  pub History-All : {log : Log} → History o log → All P log
  History-All nothing = tt
  History-All (created {log} s user_id req same h) =
      Extends-All ((create_job-Only free o s (repo-Stores s.repo same) user_id req).at log)
        (History-All h)
  History-All (processed {log} p d same same' h) =
      Extends-All
        ((process_message-Only free o p (repo-Stores p.repo same)
            (repo-Stores p.processor.repo same') d).at
          log)
        (History-All h)

-- After any calls of `CreateJob` and of `processMessage`, by any services and pools over PostgreSQL and
-- whatever the outside answers, every row that the statements can have left in a table whose rows
-- fitted at first fits: it has a file exactly where it is completed, an error exactly where it is
-- failed, and a time of completion exactly in these two cases.
pub rows-IsValid :
    (o : Outside) (t₀ t : Table) {log : Log}
    → History o log
    → Replay t₀ log t
    → IsValid t₀
    → IsValid t
rows-IsValid o t₀ t h r v =
    Replay-IsValid r (History-All IsShapedAct-IsFree o (new_job_repository-Stores o) h) v
