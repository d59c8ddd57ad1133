-- ===== src/Http.antt =====
-- The HTTP side of the API: gin's context, the middleware, and the routes with their handlers.
pub mod Context
pub mod Chain
pub mod Guards
pub mod Stream
pub mod Routes
pub mod Passage
pub mod Lines
pub mod RequestLog
pub mod Access
pub mod Refusal
pub mod Ownership
pub mod Pages
pub mod Login
pub mod Undisturbed
pub mod Streaming
