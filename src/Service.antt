-- ===== src/Service.antt =====
-- The business rules of internal/service.
pub mod Substring
pub mod Page
pub mod Ranking
pub mod Vote
pub mod User
pub mod Request
pub mod Auth
