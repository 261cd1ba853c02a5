-- ===== src/Redis.antt =====
-- The Redis side of internal/repository/redis.
pub mod Votes
