-- ===== src/Database.antt =====
-- The tables of migrations/0001_init.up.sql with the row types of
-- internal/repository/postgres/models.go, and the PostgreSQL driver as a parameter.
pub mod Tables
pub mod Driver
pub mod Consistency
pub use Tables.{UserRow, RequestRow, Vote, Db}
pub use Driver.{Pgx, Call, Commit, IsSound}
