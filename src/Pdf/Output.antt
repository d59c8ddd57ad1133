-- ===== src/Pdf/Output.antt =====
-- `Generate`: when a file is written, and with what in it.
use text.Mathlib.TextEquality.{eq_iff}
use pdf_generator.Prelude.{String, ◌≡◌, ◌≢◌, ◌↔◌, refl, true, List, [], ◌∷◌, none, some, arith, ◌⊎◌}
use pdf_generator.Go.{Result, ok, err, Failure}
use pdf_generator.Domain.{Bytes}
use pdf_generator.World.{Outside, Log, wrote_pdf, PdfItem, PdfData}
use pdf_generator.World.Drawing.{Draw}
use pdf_generator.Pdf.Render.{is_empty}
use pdf_generator.Pdf.Generate.{
  Generator, validate, document, file_path_of, draw_and_write, generate_checked, generate_parsed,
  generate, written,
}

is_empty_iff : (xs : List PdfItem) → (is_empty xs ≡ true) ↔ (xs ≡ [])
is_empty_iff [] = (λ _. refl, λ _. refl)
is_empty_iff (_ ∷ _) = (λ h. ground arith, λ h. ground arith)

-- A payload passes exactly where it has a title, and a content or at least one item.
pub validate_iff :
    (d : PdfData) → (validate d ≡ none) ↔ ((d.title ≢ "") × ((d.content ≢ "") ⊎ (d.items ≢ [])))
unfolding validate
validate_iff d = ground (arith, eq_iff d.title "", eq_iff d.content "", is_empty_iff d.items)

written_ok_lem :
    (answer : Failure) (path p : String) (ops : List Draw) (log : Log)
    → written p answer ≡ ok path
    → (path ≡ p) × (wrote_pdf p ops answer ∷ log ≡ wrote_pdf path ops none ∷ log)
written_ok_lem none path p ops log h = (cc, cc)
written_ok_lem (some e) path p ops log h = cc

drawn_ok :
    (o : Outside) (g : Generator) (job_id template : String) (d : PdfData) (log : Log)
    (path : String)
    → (draw_and_write o g job_id template d log).0 ≡ ok path
    → (path ≡ file_path_of o g job_id)
      × ((draw_and_write o g job_id template d log).1
          ≡ wrote_pdf path (document job_id template d) none ∷ log)
unfolding draw_and_write
drawn_ok o g job_id template d log path h =
    written_ok_lem _ path _ (document job_id template d) log h

checked_ok :
    (o : Outside) (g : Generator) (job_id template : String) (d : PdfData) (log : Log)
    (path : String) (found : Failure)
    → (generate_checked o g job_id template d found log).0 ≡ ok path
    → (found ≡ none)
      × (path ≡ file_path_of o g job_id)
      × ((generate_checked o g job_id template d found log).1
          ≡ wrote_pdf path (document job_id template d) none ∷ log)
unfolding generate_checked
checked_ok o g job_id template d log path (some e) h = cc
checked_ok o g job_id template d log path none h =
    let (same, after) = drawn_ok o g job_id template d log path h in (refl, same, after)

-- What a run that returned a path has read and written.
abbrev Produced :
    Outside → Generator → String → String → Log → String → Result PdfData → Log → Type 0
Produced o g job_id template log path parsed after =
    (d : PdfData) × (parsed ≡ ok d)
    × (validate d ≡ none)
    × (path ≡ file_path_of o g job_id)
    × (after ≡ wrote_pdf path (document job_id template d) none ∷ log)

parsed_ok :
    (o : Outside) (g : Generator) (job_id template : String) (log : Log) (path : String)
    (parsed : Result PdfData)
    → (generate_parsed o g job_id template parsed log).0 ≡ ok path
    → Produced o g job_id template log path parsed
        (generate_parsed o g job_id template parsed log).1
unfolding generate_parsed
parsed_ok o g job_id template log path (err e) h = cc
parsed_ok o g job_id template log path (ok d) h =
    let (passed, same, after) = checked_ok o g job_id template d log path (validate d) h in
    (d, refl, passed, same, after)

-- Where a path is returned, the payload decodes and passes, the path is that of the job, and
-- exactly one act has been added to the log: the document of the job's template was written there.
pub generate-ok :
    (o : Outside) (g : Generator) (job_id template : String) (payload : Bytes) (log : Log)
    (path : String)
    → (generate o g job_id template payload log).0 ≡ ok path
    → (d : PdfData) × (o.unmarshal_pdf_data payload ≡ ok d)
      × (validate d ≡ none)
      × (path ≡ file_path_of o g job_id)
      × ((generate o g job_id template payload log).1
          ≡ wrote_pdf path (document job_id template d) none ∷ log)
unfolding generate
generate-ok o g job_id template payload log path h = parsed_ok o g job_id template log path _ h
