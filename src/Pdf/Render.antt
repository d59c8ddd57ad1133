-- ===== src/Pdf/Render.antt =====
-- `renderInvoice`, `renderReport` and `renderDefault`, as the calls they make in order.
use Prim.Native.String.{◌++◌ as str_append}
use text.Mathlib.Text.{◌==◌ as str_eq}
use pdf_generator.Prelude.{
  ℕ, suc, String, Bool, true, false, ◌&&◌, List, [], ◌∷◌, ◌++◌, if◌then◌else◌,
}
use pdf_generator.Go.{show_nat}
use pdf_generator.World.Drawing.{Draw, set_font, set_fill_color, cell_format, multi_cell, ln}
use pdf_generator.World.{PdfItem, PdfData}

abbrev pub is_empty {ℓ} : {A : Type ℓ} → List A → Bool
is_empty [] = true
is_empty (_ ∷ _) = false

-- `item.Label == "" && item.Value == ""`.
abbrev pub is_blank : PdfItem → Bool
is_blank item = str_eq item.label "" && str_eq item.value ""

abbrev pub author_line : String → String → ℕ → String → List Draw
author_line style prefix size author =
    if str_eq author ""
    then []
    else set_font "Arial" style size
      ∷ cell_format 190 8 (str_append prefix author) "" 1 "L" false
      ∷ ln 5
      ∷ []

-- The rows of the item table of an invoice.
unfoldable pub invoice_rows : List PdfItem → List Draw
invoice_rows [] = []
invoice_rows (item ∷ items) =
    let rest = invoice_rows items in
    if is_blank item
    then rest
    else cell_format 120 7 item.label "1" 0 "L" false
      ∷ cell_format 70 7 item.value "1" 1 "R" false
      ∷ rest

abbrev pub invoice_table : List PdfItem → List Draw
unfolding invoice_rows
invoice_table items =
    if is_empty items
    then []
    else set_font "Arial" "B" 11
      ∷ set_fill_color 200 200 200
      ∷ cell_format 120 8 "Item" "1" 0 "L" true
      ∷ cell_format 70 8 "Amount" "1" 1 "R" true
      ∷ set_font "Arial" "" 10
      ∷ (invoice_rows items ++ ln 5 ∷ [])

abbrev pub invoice_notes : String → List Draw
invoice_notes content =
    if str_eq content ""
    then []
    else ln 5
      ∷ set_font "Arial" "B" 11
      ∷ cell_format 190 8 "Notes:" "" 1 "L" false
      ∷ set_font "Arial" "" 10
      ∷ multi_cell 190 6 content "" "L" false
      ∷ []

unfoldable pub render_invoice : PdfData → List Draw
unfolding invoice_rows
render_invoice d =
    author_line "" "Billed by: " 12 d.author ++ (invoice_table d.items ++ invoice_notes d.content)

abbrev pub content_block : String → List Draw
content_block content =
    if str_eq content ""
    then []
    else set_font "Arial" "" 11 ∷ multi_cell 190 6 content "" "L" false ∷ []

abbrev pub finding_text : ℕ → PdfItem → String
finding_text count item =
    str_append (show_nat count)
      (str_append ". " (str_append item.label (str_append ": " item.value)))

-- The numbered lines of a report; `count` is the number of lines already drawn.
unfoldable pub report_rows : ℕ → List PdfItem → List Draw
report_rows count [] = []
report_rows count (item ∷ items) =
    let skipped = report_rows count items in
    let rest = report_rows (suc count) items in
    if is_blank item
    then skipped
    else cell_format 190 7 (finding_text (suc count) item) "" 1 "L" false ∷ rest

abbrev pub report_findings : List PdfItem → List Draw
unfolding report_rows
report_findings items =
    if is_empty items
    then []
    else ln 10
      ∷ set_font "Arial" "B" 12
      ∷ cell_format 190 8 "Key Findings" "" 1 "L" false
      ∷ ln 3
      ∷ set_font "Arial" "" 10
      ∷ report_rows 0 items

unfoldable pub render_report : PdfData → List Draw
unfolding report_rows
render_report d =
    author_line "I" "Prepared by: " 10 d.author
    ++ (content_block d.content ++ report_findings d.items)

abbrev pub detail_text : PdfItem → String
detail_text item = str_append "• " (str_append item.label (str_append ": " item.value))

unfoldable pub detail_rows : List PdfItem → List Draw
detail_rows [] = []
detail_rows (item ∷ items) =
    let rest = detail_rows items in
    if is_blank item then rest else cell_format 190 7 (detail_text item) "" 1 "L" false ∷ rest

abbrev pub default_details : List PdfItem → List Draw
unfolding detail_rows
default_details items =
    if is_empty items
    then []
    else ln 10
      ∷ set_font "Arial" "B" 11
      ∷ cell_format 190 8 "Details:" "" 1 "L" false
      ∷ ln 3
      ∷ set_font "Arial" "" 10
      ∷ detail_rows items

unfoldable pub render_default : PdfData → List Draw
unfolding detail_rows
render_default d =
    author_line "" "By: " 12 d.author ++ (content_block d.content ++ default_details d.items)
