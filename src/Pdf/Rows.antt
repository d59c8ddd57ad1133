-- ===== src/Pdf/Rows.antt =====
-- The rows that the three templates draw: one for each item that is not blank, in order.
use pdf_generator.Prelude.{
  ℕ, suc, ◌≡◌, refl, Bool, false, not, List, [], ◌∷◌, keep_if, Bool-cases, inl, inr, map,
}
use pdf_generator.World.Drawing.{Draw, cell_format}
use pdf_generator.World.{PdfItem}
use pdf_generator.Pdf.Render.{
  is_blank, invoice_rows, report_rows, detail_rows, finding_text, detail_text,
}

abbrev pub is_filled : PdfItem → Bool
is_filled item = not (is_blank item)

abbrev pub invoice_cells : List PdfItem → List Draw
invoice_cells [] = []
invoice_cells (item ∷ items) =
    cell_format 120 7 item.label "1" 0 "L" false
    ∷ cell_format 70 7 item.value "1" 1 "R" false
    ∷ invoice_cells items

-- Lines numbered from n + 1 on.
abbrev pub numbered : ℕ → List PdfItem → List Draw
numbered n [] = []
numbered n (item ∷ items) =
    cell_format 190 7 (finding_text (suc n) item) "" 1 "L" false ∷ numbered (suc n) items

abbrev pub bulleted : PdfItem → Draw
bulleted item = cell_format 190 7 (detail_text item) "" 1 "L" false

-- An invoice has two cells for each item that is not blank, a report numbers exactly those items
-- without a gap, and the default template lists them, all in the order of the payload.
pub rows-keep_if :
    (n : ℕ) (items : List PdfItem)
    → (invoice_rows items ≡ invoice_cells (keep_if is_filled items))
      × (report_rows n items ≡ numbered n (keep_if is_filled items))
      × (detail_rows items ≡ map bulleted (keep_if is_filled items))
unfolding invoice_rows report_rows detail_rows
rows-keep_if n [] = (refl, refl, refl)
rows-keep_if n (item ∷ items) = elim (Bool-cases (is_blank item)) [
  | inl blank ↦ rw blank (rows-keep_if n items)
  | inr filled ↦ let (a, b, c) = rows-keep_if (suc n) items in rw filled (cc a, cc b, cc c)
]
