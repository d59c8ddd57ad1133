-- ===== src/Pdf/Generate.antt =====
-- `PDFData.Validate` and `Generator.Generate`. A generator is its output directory.
use Prim.Native.String.{◌++◌ as str_append}
use text.Mathlib.Text.{◌==◌ as str_eq}
use pdf_generator.Prelude.{String, false, ◌&&◌, List, [], ◌∷◌, ◌++◌, none, some, if◌then◌else◌}
use pdf_generator.Prelude.Int.{negsuc}
use pdf_generator.Go.{Result, ok, err, Failure, other, wrap}
use pdf_generator.Domain.{Bytes}
use pdf_generator.World.Drawing.{
  Draw, set_title, set_author, add_page, set_font, cell_format, ln, set_y,
}
use pdf_generator.World.{Outside, PdfData, M, ◌>>=◌, pure, output_file_and_close}
use pdf_generator.Pdf.Render.{is_empty, render_invoice, render_report, render_default}

pub record Generator : Type 0 where
  pub output_dir : String

unfoldable pub validate : PdfData → Failure
validate d =
    if str_eq d.title ""
    then some (other "title is required")
    else if str_eq d.content "" && is_empty d.items
    then some (other "content or items required, PDF would be empty")
    else none

-- The `switch templateName`.
unfoldable pub render : String → PdfData → List Draw
render template d =
    if str_eq template "invoice"
    then render_invoice d
    else if str_eq template "report"
    then render_report d
    else render_default d

abbrev pub page_head : PdfData → List Draw
page_head d =
    set_title d.title
    ∷ ((if str_eq d.author "" then [] else set_author d.author ∷ [])
        ++ add_page
          ∷ set_font "Arial" "B" 24
          ∷ cell_format 190 15 d.title "" 1 "C" false
          ∷ ln 10
          ∷ [])

abbrev pub page_foot : String → List Draw
page_foot job_id =
    set_y (negsuc 29)
    ∷ set_font "Arial" "I" 8
    ∷ cell_format 190 10 (str_append "Job ID: " job_id) "" 0 "C" false
    ∷ []

unfoldable pub document : String → String → PdfData → List Draw
document job_id template d = page_head d ++ (render template d ++ page_foot job_id)

abbrev pub file_path_of : Outside → Generator → String → String
file_path_of o g job_id = o.join_path g.output_dir (str_append job_id ".pdf")

abbrev pub written : String → Failure → Result String
written path none = ok path
written path (some e) = err (wrap "write PDF: " e)

unfoldable pub draw_and_write : Outside → Generator → String → String → PdfData → M (Result String)
draw_and_write o g job_id template d = do
  failure ← output_file_and_close o (file_path_of o g job_id) (document job_id template d)
  pure (written (file_path_of o g job_id) failure)

-- The part of `Generate` after `data.Validate()`.
unfoldable pub generate_checked :
    Outside → Generator → String → String → PdfData → Failure → M (Result String)
generate_checked o g job_id template d (some e) = pure (err (wrap "invalid PDF data: " e))
generate_checked o g job_id template d none = draw_and_write o g job_id template d

-- The part of `Generate` after `json.Unmarshal`.
unfoldable pub generate_parsed :
    Outside → Generator → String → String → Result PdfData → M (Result String)
generate_parsed o g job_id template (err e) = pure (err (wrap "unmarshal payload: " e))
generate_parsed o g job_id template (ok d) = generate_checked o g job_id template d (validate d)

unfoldable pub generate : Outside → Generator → String → String → Bytes → M (Result String)
generate o g job_id template payload =
    generate_parsed o g job_id template (o.unmarshal_pdf_data payload)
