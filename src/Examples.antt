-- ===== src/Examples.antt =====
-- Concrete inputs at which the theorems apply.
mod Proxy
mod Core
mod Documents
mod Ranks
mod Jobs
mod Worker
mod Supervisor
mod Providers
mod Server
mod Extension
mod Start
