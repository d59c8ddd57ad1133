-- ===== src/Examples/Pdf.antt =====
-- internal/pkg/pdf/generator.go at concrete inputs.
use pdf_generator.Pdf.Generate.{Generator}

abbrev generator : Generator
generator = record { output_dir = "out" }
