-- ===== src/Tests.antt =====
-- Runs of the model at concrete inputs, and the theorems applied there.
mod Data
mod Votes
mod Requests
mod Crypto
mod Tokens
mod Accounts
mod Jobs
mod Concurrent
mod Cache
mod Routing
mod Settings
mod Serving
mod Stopping
