-- ===== src/Jobs.antt =====
-- The background jobs of internal/ranking, and the adapters of cmd/server/adapters.go.
pub mod Reconcile
pub mod Trending
