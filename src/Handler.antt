-- ===== src/Handler.antt =====
-- internal/handler/pdf_handler.go and auth_handler.go. A request is the values that the handler reads from it; `user_id`
-- is set by the authentication that precedes the handler.
pub mod Response
pub mod Pdf
pub mod Status
pub mod Auth
pub mod Session
