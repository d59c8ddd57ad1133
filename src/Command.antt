-- ===== src/Command.antt =====
-- cmd: the start of the worker.
pub mod Startup
pub mod Ready
pub mod Api
pub mod Serving
pub mod Closing
pub mod Idle
