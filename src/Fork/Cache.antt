-- ===== src/Fork/Cache.antt =====
-- crates/pop-fork/src/cache.rs: the SQLite tables and the queries over them.
pub mod Tables
pub mod Prefix
pub mod Storage
pub mod History
pub mod Blocks
pub mod Retry
