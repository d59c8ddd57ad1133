-- ===== src/Middleware.antt =====
-- internal/middleware/rate_limit.go. A `*rate.Limiter` is a number; what its bucket answers is a
-- parameter.
pub mod RateLimit
pub mod Visitors
