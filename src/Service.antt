-- ===== src/Service.antt =====
-- internal/service/pdf_service.go: the operations behind the HTTP handlers.
pub mod Validator
pub mod PdfService
pub mod Creation
pub mod Access
