-- ===== src/Middleware.antt =====
-- What stands around the handlers: internal/middleware.
pub mod Auth
pub mod RateLimit
pub mod Security
pub mod Observability
