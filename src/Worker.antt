-- ===== src/Worker.antt =====
-- The background worker (worker/src).
pub mod Ops
pub mod Executor
pub mod Append
pub mod Health
pub mod Supervisor
