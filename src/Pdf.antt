-- ===== src/Pdf.antt =====
-- internal/pkg/pdf/generator.go: a payload becomes a list of drawing calls and one file.
pub mod Render
pub mod Rows
pub mod Generate
pub mod Output
