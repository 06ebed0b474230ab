-- ===== src/Extension.antt =====
-- The Postgres extension (extension/src).
pub mod Chat
pub mod Executor
pub mod Hybrid
pub mod Api
pub mod Chunks
pub mod Create
pub mod Imports
pub mod Loop
pub mod Initial
pub mod Search
pub mod Settings
pub mod Spi
pub mod Tables
pub mod Workers
