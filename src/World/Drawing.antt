-- ===== src/World/Drawing.antt =====
-- The gofpdf calls of internal/pkg/pdf/generator.go. Lengths are whole millimetres.
use pdf_generator.Prelude.{ℕ, String, Bool}
use pdf_generator.Prelude.Int.{ℤ}

pub data Draw : Type 0 where
  set_title set_author : String → Draw
  add_page : Draw
  -- family, style, size
  set_font : String → String → ℕ → Draw
  set_fill_color : ℕ → ℕ → ℕ → Draw
  -- width, height, text, border, line break after, alignment, fill
  cell_format : ℕ → ℕ → String → String → ℕ → String → Bool → Draw
  multi_cell : ℕ → ℕ → String → String → String → Bool → Draw
  ln : ℕ → Draw
  set_y : ℤ → Draw
