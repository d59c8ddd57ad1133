-- ===== src/Sse.antt =====
-- internal/SSE/broker.go: the clients of the event stream, and the routing of job events to them.
pub mod Broker
pub mod Delivery
pub mod System
pub mod Invariant
pub mod Safety
pub mod Limit
pub mod Listen
pub mod Order
pub mod Unique
pub mod History
pub mod Ordered
pub mod InOrder
pub mod Announced
pub mod Progress
