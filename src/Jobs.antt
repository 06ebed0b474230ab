-- ===== src/Jobs.antt =====
-- core/src/init.rs and core/src/db.rs: jobs in the database.
pub mod Environment
pub mod Guc
pub mod Init
pub mod Create
pub mod Remove
pub mod Rows
