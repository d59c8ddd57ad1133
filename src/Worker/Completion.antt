-- ===== src/Worker/Completion.antt =====
-- `Process`: what has been done when it returns nil.
use pdf_generator.Prelude.{String, ◌≡◌, refl, sym, ◌∙◌, ap, ◌∷◌, none, some}
use pdf_generator.Go.{Result, ok, err, Failure}
use pdf_generator.Domain.{processing, completed, JobMessage}
use pdf_generator.World.{Outside, Log, wrote_pdf, PdfData}
use pdf_generator.Pdf.Generate.{validate, document, file_path_of}
use pdf_generator.Pdf.Output.{generate-ok}
use pdf_generator.Worker.Processor.{
  PdfProcessor, announce, report_completed, report_generated, process_started, process,
}

module _ (o : Outside) (p : PdfProcessor) (msg : JobMessage) where
  -- The log when the row has been marked as being processed and the change has been announced.
  abbrev pub started : Log → Log
  started log =
      (announce o p msg.job_id msg.user_id processing none none
        (p.repo.update_status msg.job_id processing none none log).1).1

  -- The answer and the log of marking the row as completed.
  abbrev pub completing : String → Log → Failure × Log
  completing path log = p.repo.update_status msg.job_id completed (some path) none log

  -- The log when that has been announced.
  abbrev pub finished : String → Log → Log
  finished path log =
      (announce o p msg.job_id msg.user_id completed (some path) none (completing path log).1).1

  completed_ok :
      (path : String) (f : Failure) (log : Log)
      → (report_completed o p msg path f log).0 ≡ none
      → (f ≡ none)
        × ((report_completed o p msg path f log).1
            ≡ (announce o p msg.job_id msg.user_id completed (some path) none log).1)
  unfolding report_completed
  completed_ok path none log h = (refl, refl)
  completed_ok path (some e) log h = cc

  generated_ok :
      (made : Result String) (log : Log)
      → (report_generated o p msg made log).0 ≡ none
      → (path : String) × (made ≡ ok path)
        × ((completing path log).0 ≡ none)
        × ((report_generated o p msg made log).1 ≡ finished path log)
  unfolding report_generated
  generated_ok (err e) log h = cc
  generated_ok (ok path) log h =
      let (accepted, after) = completed_ok path _ _ h in (path, refl, accepted, after)

  -- A run from the log in which the row was announced as being processed, to its end.
  abbrev pub Completion : Log → Log → Type 0
  Completion before after =
      (d : PdfData) × (path : String) × (o.unmarshal_pdf_data msg.payload ≡ ok d)
      × (validate d ≡ none)
      × (path ≡ file_path_of o p.generator msg.job_id)
      × ((completing path
            (wrote_pdf path (document msg.job_id msg.template_name d) none ∷ before)).0
          ≡ none)
      × (after
          ≡ finished path (wrote_pdf path (document msg.job_id msg.template_name d) none ∷ before))

  started_ok :
      (f : Failure) (log : Log)
      → (process_started o p msg f log).0 ≡ none
      → (f ≡ none)
        × Completion
            (announce o p msg.job_id msg.user_id processing none none log).1
            (process_started o p msg f log).1
  unfolding process_started
  started_ok (some e) log h = cc
  started_ok none log h =
      let before = (announce o p msg.job_id msg.user_id processing none none log).1 in
      let (path, made, accepted, after) = generated_ok _ _ h in
      let (d, read, passed, same, wrote) =
        generate-ok o p.generator msg.job_id msg.template_name msg.payload before path made in
      (
        refl,
        (
          d,
          path,
          read,
          passed,
          same,
          ap (λ l. (completing path l).0) (sym wrote) ∙ accepted,
          after ∙ ap (finished path) wrote,
        ),
      )

  -- Where `Process` returns nil, the payload decodes and passes, and this has been done and nothing
  -- else, in this order: the row was marked as being processed, which the repository accepted, the change
  -- was announced, the document was written to the path of the job, the row was marked as completed with
  -- that path, which the repository accepted, and the change was announced.
  pub process-completes :
      (log : Log)
      → (process o p msg log).0 ≡ none
      → ((p.repo.update_status msg.job_id processing none none log).0 ≡ none)
        × Completion (started log) (process o p msg log).1
  unfolding process
  process-completes log h = started_ok _ _ h
