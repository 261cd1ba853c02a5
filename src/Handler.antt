-- ===== src/Handler.antt =====
-- The HTTP handlers of internal/handler.
pub mod Votes
pub mod Requests
pub mod Auth
