-- ===== src/Fork/Tests.antt =====
-- Concrete inputs, and each property of pop-fork applied to them.
pub mod Data
pub mod OfCache
pub mod OfRemote
pub mod OfLocal
pub mod OfBlocks
pub mod OfBuild
pub mod OfQueries
