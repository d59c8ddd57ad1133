-- ===== src/Worker.antt =====
-- internal/worker: a delivery from the job queue is processed, acknowledged, and retried or given up.
pub mod Processor
pub mod Pool
pub mod Publications
pub mod Retries
pub mod Completion
pub mod Silence
pub mod Settlement
pub mod System
pub mod Crew
pub mod Tags
pub mod Shutdown
pub mod Progress
pub mod Draining
pub mod Moves
pub mod Fate
