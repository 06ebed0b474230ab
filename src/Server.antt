-- ===== src/Server.antt =====
-- The HTTP server (server/src): its routes, its cache of jobs and what it reports of the worker.
pub mod Errors
pub mod Search
pub mod Table
pub mod Cache
pub mod Health
pub mod State
