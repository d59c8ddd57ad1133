-- ===== src/Config.antt =====
-- internal/config/config.go.
pub mod Settings
pub mod Load
pub mod Reading
