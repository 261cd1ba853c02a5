-- ===== src/Postgres.antt =====
-- The repositories of internal/repository/postgres.
pub mod Transaction
pub mod Votes
pub mod Users
pub mod Requests
pub mod Ranking
