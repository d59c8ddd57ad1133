-- ===== src/Worker/Silence.antt =====
-- `Process` leaves no act of a kind in the log, where its repository, its events and its generator
-- leave none.
use pdf_generator.Prelude.{String, Bool, Option, none, some}
use pdf_generator.Go.{Result, ok, err, Failure}
use pdf_generator.Domain.{JobStatus, JobMessage, Bytes}
use pdf_generator.World.{Outside, Act}
use pdf_generator.World.Counting.{Silent, Silent-pure, Silent-bind, Silent-then}
use pdf_generator.Pdf.Generate.{generate}
use pdf_generator.Repository.Quiet.{IsQuiet}
use pdf_generator.Worker.Processor.{
  PdfProcessor, announce, report_completed, report_generated, process_started, process,
}

pub record IsQuietProcessor (o : Outside) (kind : Act → Bool) (p : PdfProcessor) : Type 0 where
  pub repo : IsQuiet kind p.repo
  pub announce :
      (job_id user_id : String) (status : JobStatus) (file_path err_msg : Option String)
      → Silent kind (announce o p job_id user_id status file_path err_msg)
  pub generate :
      (job_id template : String) (payload : Bytes)
      → Silent kind (generate o p.generator job_id template payload)

module _ (o : Outside) {kind : Act → Bool} (p : PdfProcessor) (q : IsQuietProcessor o kind p)
    (msg : JobMessage) where
  report_completed-Silent :
      (path : String) (f : Failure) → Silent kind (report_completed o p msg path f)
  unfolding report_completed
  report_completed-Silent path (some e) = Silent-pure _
  report_completed-Silent path none = Silent-then (q.announce _ _ _ _ _) (Silent-pure _)

  report_generated-Silent : (made : Result String) → Silent kind (report_generated o p msg made)
  unfolding report_generated
  report_generated-Silent (err e) =
      Silent-then (q.repo.update_status _ _ _ _)
        (Silent-then (q.announce _ _ _ _ _) (Silent-pure _))
  report_generated-Silent (ok path) =
      Silent-bind (q.repo.update_status _ _ _ _) (report_completed-Silent path)

  process_started-Silent : (f : Failure) → Silent kind (process_started o p msg f)
  unfolding process_started
  process_started-Silent (some e) = Silent-pure _
  process_started-Silent none =
      Silent-then (q.announce _ _ _ _ _) (Silent-bind (q.generate _ _ _) report_generated-Silent)

  pub process-Silent : Silent kind (process o p msg)
  unfolding process
  process-Silent = Silent-bind (q.repo.update_status _ _ _ _) process_started-Silent
