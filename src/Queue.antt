-- ===== src/Queue.antt =====
-- internal/pkg/queue/rabbitMq.go: the connection to RabbitMQ. The lock `mu` is held for the whole of
-- each operation, so an operation is one transition of the record.
pub mod Connection
pub mod Topology
pub mod Publish
pub mod Plan
pub mod Routes
pub mod Consume
pub mod Reconnect
pub mod Backoff
pub mod Recovery
pub mod Link
pub mod Closing
