-- ===== src/Query.antt =====
-- core/src/query.rs: the statements for the database, and batches of inputs.
pub mod Batches
pub mod Tables
pub mod Triggers
pub mod Filters
pub mod Search
