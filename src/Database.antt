-- ===== src/Database.antt =====
-- The table `jobs`: what the statements of the repository do to it, and what the calls of the program
-- therefore keep in it.
pub mod Table
pub mod Acts
pub mod Shape
pub mod History
pub mod Evolution
pub mod Oracle
pub mod Lifecycle
pub mod Creation
pub mod Failure
pub mod Success
pub mod Journey
