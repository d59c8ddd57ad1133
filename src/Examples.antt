-- ===== src/Examples.antt =====
-- Concrete inputs at which the theorems are applied.
mod Samples
mod Worker
mod Database
mod Retries
mod Queue
mod Service
mod Sse
mod Pdf
mod Handler
mod Middleware
mod Token
mod Http
mod Config
mod Command
mod Closing
mod Threads
mod Streams
mod Api
mod Failure
mod Journey
