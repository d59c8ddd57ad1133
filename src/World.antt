-- ===== src/World.antt =====
-- What lies outside the program (PostgreSQL through pgx, RabbitMQ through amqp091, gofpdf, the
-- clock, uuid and JSON encoders), as one record of answers, and the log of what the program asked.
pub mod Sql
pub mod Amqp
pub mod Drawing
pub mod Counting
pub mod Extends
mod Answers
mod Effect
pub use Answers.*
pub use Effect.*
